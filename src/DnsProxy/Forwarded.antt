-- ===== src/DnsProxy/Forwarded.antt =====
-- What `stripClientSubnetOption` leaves of a query: its header and its question.
use zakop.Prelude.{
  ℕ, zero, suc, ◌+◌, ◌≤◌, ◌≡◌, inl, inr, refl, sym, ap, ◌∙◌, Bool, false, not, ◌||◌, List, [], ◌∷◌,
  ◌++◌, append_assoc, append-nil, Option, none, some, arith, ltb, ◌==◌, if◌then◌else◌, Bool-cases,
  Option-cases, length, length-append, length-take, take, drop, take-append, take-append-drop,
}
use zakop.DnsProxy.Message.{
  Bytes, uint16, decode_name, Query, query_behind, parse_query, encode_labels,
}
use zakop.DnsProxy.Name.{
  AreLabels, decode_labels_bounds, parse_query_bounds, parse_query-encode_labels,
}
use zakop.DnsProxy.Edns.{
  record_data, resource_record, question_end_at, skip_questions, strip_record, strip_records,
  skip_records, strip_client_subnet_option,
}

parse_query-header :
    (msg : Bytes) (q : Query)
    → parse_query msg ≡ some q
    → (12 ≤ length msg)
      × (uint16 msg 4 ≡ suc zero)
      × (query_behind msg (decode_name msg 12 0) ≡ some q)
unfolding parse_query
parse_query-header msg q e = elim (Bool-cases (ltb (length msg) 12)) [
  | inl short ↦ absurd (ground (arith, short))
  | inr long ↦ elim (Bool-cases (uint16 msg 4 == 1)) [
    | inl one ↦ ((ground (arith, long)), (ground (arith, one)), ground (arith, long, one, e))
    | inr other ↦ absurd (ground (arith, long, other))
  ]
]

end_behind :
    (len end v : ℕ) (name : Bytes) (q : Query)
    → (if ltb len (end + 4)
        then none
        else some (record { name = name; type = v; question_end = end + 4 }))
      ≡ some q
    → (if ltb len (end + 4) then none else some (end + 4)) ≡ some q.question_end
end_behind len end v name q e = ground arith

-- The first question ends where `ParseQuery` says, and is the only one.
question_end_at-parse_query :
    (msg : Bytes) (q : Query)
    → parse_query msg ≡ some q
    → skip_questions (uint16 msg 4) msg 12 ≡ some q.question_end
unfolding skip_questions question_end_at
question_end_at-parse_query msg q e =
    let (long, one, behind) = parse_query-header msg q e in
    elim (Option-cases (decode_name msg 12 0)) [
      | inl no_name ↦ cc (ap (query_behind msg) (sym no_name), behind)
      | inr ((name, end), found) ↦
          let ends =
            end_behind (length msg) end (uint16 msg end) name q
              (ap (query_behind msg) (sym found) ∙ behind) in
          rw (one, skip_questions, found, ends)
    ]

abbrev placed : ℕ → ℕ → ℕ → Option (ℕ × ℕ)
placed len off v =
    if ltb len (off + 10)
    then none
    else if ltb len (off + 10 + v)
    then none
    else some (off, off + 10 + v)

record_bounds :
    (len off v data' end : ℕ) → placed len off v ≡ some (data', end) → (off ≤ end) × (end ≤ len)
record_bounds len off v data' end e = ground arith

resource_record_bounds :
    (msg : Bytes) (off : ℕ) (data' end : ℕ)
    → resource_record msg off ≡ some (data', end)
    → (off ≤ end) × (end ≤ length msg)
unfolding resource_record
resource_record_bounds msg off data' end e = elim (Option-cases (decode_name msg off 0)) [
  | inl no_name ↦ cc (ap (record_data msg) (sym no_name), e)
  | inr ((name, next), found) ↦
      let b =
        decode_labels_bounds 9 (length msg + 1) msg off [] name next
          (unfold decode_name in found) in
      let r =
        record_bounds (length msg) next (uint16 msg (next + 8)) data' end
          (ap (record_data msg) (sym found) ∙ e) in
      omega (arith, b, r)
]

skip_records_bounds :
    (n : ℕ) (msg : Bytes) (off end : ℕ)
    → off ≤ length msg
    → skip_records n msg off ≡ some end
    → (off ≤ end) × (end ≤ length msg)
unfolding skip_records
skip_records_bounds zero msg off end fits e = ground arith
skip_records_bounds (suc n) msg off end fits e = elim (Option-cases (resource_record msg off)) [
  | inl bad ↦ absurd (ground (arith, bad))
  | inr ((data', next), found) ↦
      let b = resource_record_bounds msg off data' next found in
      let rest = skip_records_bounds n msg next end b.1 (ground (arith, found)) in
      omega (arith, b, rest)
]

-- The additional records are written behind what there is.
strip_records-append :
    (n : ℕ) (msg : Bytes) (off : ℕ) (out : Bytes) (changed : Bool) (r : Bytes × Bool × ℕ)
    → strip_records n msg off out changed ≡ some r
    → (more : Bytes) × (r.0 ≡ out ++ more)
unfolding strip_records
strip_records-append zero msg off out changed r e = ([], ground (arith, append-nil out))
strip_records-append (suc n) msg off out changed r e =
    elim (Option-cases (resource_record msg off)) [
      | inl bad ↦ absurd (ground (arith, bad))
      | inr ((data', end), found) ↦ elim (Option-cases (strip_record msg off data' end)) [
        | inl bad ↦ absurd (ground (arith, found, bad))
        | inr ((written, here), wrote) ↦
            let (more, same) =
              strip_records-append n msg end (out ++ written) (changed || here) r
                (ground (arith, found, wrote)) in
            (written ++ more, same ∙ append_assoc out written more)
      ]
    ]

take-take : {A : Type 0} (n m : ℕ) (xs : List A) → n ≤ m → take n (take m xs) ≡ take n xs
take-take zero m xs le = refl
take-take (suc n) zero xs le = absurd (omega arith)
take-take (suc n) (suc m) [] le = refl
take-take (suc n) (suc m) (x ∷ xs) le =
    ap (λ (ys : List _). x ∷ ys) (take-take n m xs (omega arith))

-- The message begins with the query up to the end of its question.
abbrev Keeps : ℕ → Bytes → Bytes → Type 0
Keeps n msg out = (rest : Bytes) × (out ≡ take n msg ++ rest)

Keeps-self : (n : ℕ) (msg : Bytes) → Keeps n msg msg
Keeps-self n msg = (drop n msg, sym (take-append-drop n msg))

Keeps-longer : (n m : ℕ) (msg more out : Bytes) → n ≤ m → out ≡ take m msg ++ more → Keeps n msg out
Keeps-longer n m msg more out le e =
    let cut : take m msg ≡ take n msg ++ drop n (take m msg) =
      sym (take-append-drop n (take m msg))
      ∙ ap (λ (x : Bytes). x ++ drop n (take m msg)) (take-take n m msg le) in
    (
      drop n (take m msg) ++ more,
      e ∙ ap (λ (x : Bytes). x ++ more) cut ∙ append_assoc (take n msg) (drop n (take m msg)) more,
    )

abbrev finished : Bytes → Option (Bytes × Bool × ℕ) → Bytes
finished msg none = msg
finished msg (some (out, changed, end)) =
    if not (end == length msg) then msg else if not changed then msg else out

finished-Keeps :
    (n off : ℕ) (msg : Bytes) (r : Option (Bytes × Bool × ℕ))
    → ((x : Bytes × Bool × ℕ) → r ≡ some x → (more : Bytes) × (x.0 ≡ take off msg ++ more))
    → n ≤ off
    → Keeps n msg (finished msg r)
finished-Keeps n off msg none written le = Keeps-self n msg
finished-Keeps n off msg (some (out, changed, end)) written le =
    let (more, same) = written (out, changed, end) refl in
    elim (Bool-cases (end == length msg)) [
      | inr early ↦ rw early (Keeps-self n msg)
      | inl all ↦ rw all (elim (Bool-cases changed) [
        | inr same_options ↦ rw same_options (Keeps-self n msg)
        | inl yes_changed ↦ rw yes_changed (Keeps-longer n off msg more out le same)
      ])
    ]

strip_client_subnet_option-Keeps :
    (msg : Bytes) (q : Query)
    → parse_query msg ≡ some q
    → Keeps q.question_end msg (strip_client_subnet_option msg)
unfolding strip_client_subnet_option
strip_client_subnet_option-Keeps msg q e =
    let (long, _, _) = parse_query-header msg q e in
    let question = question_end_at-parse_query msg q e in
    let (_, fits) = parse_query_bounds msg e in
    elim (Bool-cases (ltb (length msg) 12)) [
      | inl short ↦ rw short (Keeps-self q.question_end msg)
      | inr enough ↦
          rw (enough, question)
            (elim (Option-cases (skip_records (uint16 msg 6 + uint16 msg 8) msg q.question_end)) [
              | inl bad ↦ rw bad (Keeps-self q.question_end msg)
              | inr (off, skipped) ↦
                  let (le, _) =
                    skip_records_bounds (uint16 msg 6 + uint16 msg 8) msg q.question_end off fits
                      skipped in
                  rw skipped (
                    finished-Keeps q.question_end off msg
                      (strip_records (uint16 msg 10) msg off (take off msg) false)
                      (λ x done.
                        strip_records-append (uint16 msg 10) msg off (take off msg) false x done)
                      le)
            ])
    ]

-- What is forwarded for a query that `ParseQuery` accepts begins with the query up to the end of its
-- question, byte for byte.
pub strip_client_subnet_option_lem :
    (msg : Bytes) (q : Query)
    → parse_query msg ≡ some q
    → take q.question_end (strip_client_subnet_option msg) ≡ take q.question_end msg
strip_client_subnet_option_lem msg q e =
    let (rest, same) = strip_client_subnet_option-Keeps msg q e in
    let (_, fits) = parse_query_bounds msg e in
    let size : q.question_end ≡ length (take q.question_end msg) =
      omega (arith, length-take q.question_end msg) in
    ap (take q.question_end) same ∙ take-append (take q.question_end msg) rest q.question_end size

module _ (header rest : Bytes) (ls : List Bytes) (t u c d : ℕ) where
  abbrev asked : Bytes
  asked = header ++ (encode_labels ls ++ (t ∷ u ∷ c ∷ d ∷ rest))

  -- For a query whose one question is written without pointers, in labels of 1 to 63 bytes, the
  -- upstream finds in what is forwarded the question that the client asked.
  pub parse_query-strip_client_subnet_option :
      length header ≡ 12
      → uint16 header 4 ≡ 1
      → AreLabels ls
      → parse_query (strip_client_subnet_option asked) ≡ parse_query asked
  parse_query-strip_client_subnet_option size one v =
      let parsed = parse_query-encode_labels header rest ls t u c d size one v in
      let end = 12 + length (encode_labels ls) + 4 in
      let front = header ++ (encode_labels ls ++ (t ∷ u ∷ c ∷ d ∷ [])) in
      let split = λ (tail : Bytes).
        ap (λ (x : Bytes). header ++ x)
          (sym (append_assoc (encode_labels ls) (t ∷ u ∷ c ∷ d ∷ []) tail))
        ∙ sym (append_assoc header (encode_labels ls ++ (t ∷ u ∷ c ∷ d ∷ [])) tail) in
      let long : end ≡ length front = omega (
        arith,
        size,
        length-append header (encode_labels ls ++ (t ∷ u ∷ c ∷ d ∷ [])),
        length-append (encode_labels ls) (t ∷ u ∷ c ∷ d ∷ []),
      ) in
      let (more, same) = strip_client_subnet_option-Keeps asked _ parsed in
      let taken : take end asked ≡ front =
        ap (take end) (split rest) ∙ take-append front rest end long in
      let out = same ∙ ap (λ (x : Bytes). x ++ more) taken ∙ sym (split more) in
      ap parse_query out ∙ parse_query-encode_labels header more ls t u c d size one v ∙ sym parsed
