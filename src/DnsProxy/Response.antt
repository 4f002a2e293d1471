-- ===== src/DnsProxy/Response.antt =====
-- The answers that the proxy makes itself: what they keep of the query, and that they are answers
-- to the same question.
use zakop.Prelude.{
  ℕ, suc, ◌+◌, ◌*◌, ◌%◌, ◌≤◌, ◌<◌, ◌≡◌, inl, inr, refl, sym, ap, ◌∙◌, ◌&&◌, List, [], ◌∷◌, ◌++◌,
  append_assoc, some, arith, leb, ◌==◌, if◌then◌else◌, Bool-cases, length, length-append,
  length-take, take, set, take-append, get_or-take,
}
use zakop.Text.{codes, join}
use zakop.DnsProxy.Message.{
  Bytes, byte_at, uint16, put_at, with_low_bit, with_rcode, Query, parse_query, nodata_response,
  nxdomain_response, servfail_response, encode_labels,
}
use zakop.DnsProxy.Name.{AreLabels, parse_query_bounds, parse_query-encode_labels}

-- The header of an answer: the id and the count of questions of the query, the flags of a
-- recursive answer with a code, and no other records. Behind it the bytes of the query.
abbrev pub answer : ℕ → Bytes → Bytes
answer code (a ∷ b ∷ _ ∷ _ ∷ e ∷ f ∷ _ ∷ _ ∷ _ ∷ _ ∷ _ ∷ _ ∷ rest) =
    a ∷ b ∷ 0x81 ∷ (0x80 + code) ∷ e ∷ f ∷ 0 ∷ 0 ∷ 0 ∷ 0 ∷ 0 ∷ 0 ∷ rest
answer code short = short

fill_header :
    (query body : Bytes)
    → 12 ≤ length body
    → (let resp = set (set body 2 0x81) 3 0x80 in
        let asked =
          if leb 4 (length query) && byte_at query 2 % 2 == 1
          then set resp 2 (with_low_bit (byte_at resp 2))
          else resp in
        put_at (put_at (put_at asked 6 0) 8 0) 10 0)
      ≡ answer 0 body
fill_header query (a ∷ b ∷ c ∷ d ∷ e ∷ f ∷ g ∷ h ∷ i ∷ j ∷ k ∷ l ∷ rest) n =
    elim (Bool-cases (leb 4 (length query) && byte_at query 2 % 2 == 1)) [
      | inl odd ↦ rw odd
      | inr even ↦ rw even
    ]
fill_header query _ n = absurd (omega arith)

recode :
    (code : ℕ) (body : Bytes)
    → 12 ≤ length body
    → set (answer 0 body) 3 (with_rcode code (byte_at (answer 0 body) 3)) ≡ answer code body
recode code (a ∷ b ∷ c ∷ d ∷ e ∷ f ∷ g ∷ h ∷ i ∷ j ∷ k ∷ l ∷ rest) n = refl
recode code _ n = absurd (omega arith)

module _ (query : Bytes) (question_end : ℕ) (long : 12 ≤ question_end)
    (fits : question_end ≤ length query) where
  body_length : length (take question_end query) ≡ question_end
  body_length = omega (arith, length-take question_end query)

  pub nodata_response-answer :
      nodata_response query question_end ≡ answer 0 (take question_end query)
  unfolding nodata_response
  nodata_response-answer = fill_header query (take question_end query) (omega (arith, body_length))

  pub nxdomain_response-answer :
      nxdomain_response query question_end ≡ answer 3 (take question_end query)
  unfolding nxdomain_response
  nxdomain_response-answer =
      rw nodata_response-answer (recode 3 (take question_end query) (omega (arith, body_length)))

pub servfail_response-answer :
    (query : Bytes) (q : Query)
    → parse_query query ≡ some q
    → servfail_response query ≡ some (answer 2 (take q.question_end query))
unfolding servfail_response
servfail_response-answer query q e =
    let (long, fits) = parse_query_bounds query e in
    let size = body_length query q.question_end (omega arith) fits in
    rw (e, servfail_response, nodata_response-answer query q.question_end (omega arith) fits)
      (ap some (recode 2 (take q.question_end query) (omega (arith, size))))

-- `resp` answers the query with the code: it is as long as the query up to its question, repeats
-- the id, the count of questions and the question, has the flags of an answer, and no records.
pub record IsAnswer (code : ℕ) (query : Bytes) (question_end : ℕ) (resp : Bytes) : Type 0 where
  pub same_length : length resp ≡ question_end
  pub same_id : uint16 resp 0 ≡ uint16 query 0
  pub flags : byte_at resp 2 ≡ 0x81
  pub rcode : byte_at resp 3 ≡ 0x80 + code
  pub same_count : uint16 resp 4 ≡ uint16 query 4
  pub no_records : (uint16 resp 6 ≡ 0) × (uint16 resp 8 ≡ 0) × (uint16 resp 10 ≡ 0)
  pub same_question : (i : ℕ) → 12 ≤ i → i < question_end → byte_at resp i ≡ byte_at query i

answer-header :
    (code : ℕ) (body : Bytes)
    → 12 ≤ length body
    → IsAnswer code body (length body) (answer code body)
answer-header code (a ∷ b ∷ c ∷ d ∷ e ∷ f ∷ g ∷ h ∷ i ∷ j ∷ k ∷ l ∷ rest) n = record {
  same_length = refl;
  same_id = refl;
  flags = refl;
  rcode = refl;
  same_count = refl;
  no_records = (refl, refl, refl);
  same_question = λ m p q. tail_at m p;
}
  where
    tail_at :
        (m : ℕ)
        → 12 ≤ m
        → byte_at (answer code (a ∷ b ∷ c ∷ d ∷ e ∷ f ∷ g ∷ h ∷ i ∷ j ∷ k ∷ l ∷ rest)) m
          ≡ byte_at (a ∷ b ∷ c ∷ d ∷ e ∷ f ∷ g ∷ h ∷ i ∷ j ∷ k ∷ l ∷ rest) m
    tail_at (suc (suc (suc (suc (suc (suc (suc (suc (suc (suc (suc (suc m)))))))))))) p = refl
    tail_at _ p = absurd (omega arith)
answer-header code _ n = absurd (omega arith)

answer-IsAnswer :
    (code : ℕ) (query : Bytes) (question_end : ℕ)
    → 12 ≤ question_end
    → question_end ≤ length query
    → IsAnswer code query question_end (answer code (take question_end query))
answer-IsAnswer code query n long fits =
    let body = take n query in
    let size = body_length query n long fits in
    let a = answer-header code body (omega (arith, size)) in
    let kept = λ (i : ℕ) (h : i < n). get_or-take n query 0 i h in
    record {
      same_length = a.same_length ∙ size;
      same_id = a.same_id ∙ omega (arith, kept 0 (omega arith), kept 1 (omega arith));
      flags = a.flags;
      rcode = a.rcode;
      same_count = a.same_count ∙ omega (arith, kept 4 (omega arith), kept 5 (omega arith));
      no_records = a.no_records;
      same_question = λ i p q. a.same_question i p (omega (arith, size)) ∙ kept i q;
    }

-- For every query that `ParseQuery` accepts, the empty answer, the NXDOMAIN answer and the
-- SERVFAIL answer (which is then made) are answers to it with the codes 0, 3 and 2.
pub responses-IsAnswer :
    (query : Bytes) (q : Query)
    → parse_query query ≡ some q
    → IsAnswer 0 query q.question_end (nodata_response query q.question_end)
      × IsAnswer 3 query q.question_end (nxdomain_response query q.question_end)
      × ((resp : Bytes) × (servfail_response query ≡ some resp)
          × IsAnswer 2 query q.question_end resp)
responses-IsAnswer query q e =
    let (long, fits) = parse_query_bounds query e in
    let n = q.question_end in
    let l : 12 ≤ n = omega arith in
    (
      rw (nodata_response-answer query n l fits) (answer-IsAnswer 0 query n l fits),
      rw (nxdomain_response-answer query n l fits) (answer-IsAnswer 3 query n l fits),
      (
        answer 2 (take n query),
        servfail_response-answer query q e,
        answer-IsAnswer 2 query n l fits,
      ),
    )

-- The header of an answer and what stands behind it.
answer-append :
    (code : ℕ) (header behind : Bytes)
    → length header ≡ 12
    → (answer code (header ++ behind) ≡ answer code header ++ behind)
      × (length (answer code header) ≡ 12)
      × (uint16 (answer code header) 4 ≡ uint16 header 4)
answer-append code (a ∷ b ∷ c ∷ d ∷ e ∷ f ∷ g ∷ h ∷ i ∷ j ∷ k ∷ l ∷ []) behind n = (refl, n, refl)
answer-append code _ behind n = absurd (omega arith)

module _ (header rest : Bytes) (ls : List Bytes) (t u c d : ℕ) where
  -- A query whose question is written without pointers, and the offset behind the question.
  abbrev query_of : Bytes
  query_of = header ++ (encode_labels ls ++ (t ∷ u ∷ c ∷ d ∷ rest))

  abbrev end_of : ℕ
  end_of = 12 + length (encode_labels ls) + 4

  module _ (size : length header ≡ 12) (one : uint16 header 4 ≡ 1) (v : AreLabels ls) where
    question_part : take end_of query_of ≡ header ++ (encode_labels ls ++ (t ∷ u ∷ c ∷ d ∷ []))
    question_part =
        let front = header ++ (encode_labels ls ++ (t ∷ u ∷ c ∷ d ∷ [])) in
        let regroup : query_of ≡ front ++ rest =
          ap (λ (x : Bytes). header ++ x)
            (sym (append_assoc (encode_labels ls) (t ∷ u ∷ c ∷ d ∷ []) rest))
          ∙ sym (append_assoc header (encode_labels ls ++ (t ∷ u ∷ c ∷ d ∷ [])) rest) in
        rw regroup (
          take-append front rest end_of (
            omega (
              arith,
              size,
              length-append header (encode_labels ls ++ (t ∷ u ∷ c ∷ d ∷ [])),
              length-append (encode_labels ls) (t ∷ u ∷ c ∷ d ∷ []),
            )))

    pub parsed :
        parse_query query_of
        ≡ some (record { name = join ls (codes "."); type = t * 256 + u; question_end = end_of })
    parsed = parse_query-encode_labels header rest ls t u c d size one v

    answer-parse :
        (code : ℕ) → parse_query (answer code (take end_of query_of)) ≡ parse_query query_of
    answer-parse code =
        let (split, long, questions) =
          answer-append code header (encode_labels ls ++ (t ∷ u ∷ c ∷ d ∷ [])) size in
        rw (question_part, split)
          (parse_query-encode_labels (answer code header) [] ls t u c d long (questions ∙ one) v
            ∙ sym parsed)

    -- For a query whose one question is written without pointers, in labels of 1 to 63 bytes, a
    -- client that reads the empty answer, the NXDOMAIN answer or the SERVFAIL answer finds the
    -- question that it asked.
    pub responses-parse_query :
        (parse_query (nodata_response query_of end_of) ≡ parse_query query_of)
        × (parse_query (nxdomain_response query_of end_of) ≡ parse_query query_of)
        × ((resp : Bytes) × (servfail_response query_of ≡ some resp)
            × (parse_query resp ≡ parse_query query_of))
    responses-parse_query =
        let (long, fits) = parse_query_bounds query_of parsed in
        let l : 12 ≤ end_of = omega arith in
        (
          rw (nodata_response-answer query_of end_of l fits) (answer-parse 0),
          rw (nxdomain_response-answer query_of end_of l fits) (answer-parse 3),
          (
            answer 2 (take end_of query_of),
            servfail_response-answer query_of _ parsed,
            answer-parse 2,
          ),
        )
