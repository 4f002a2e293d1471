-- ===== src/DnsProxy/Name.antt =====
-- `decodeName` and `ParseQuery`: bounds, the bound on the rounds, and the names that are written
-- without pointers.
use zakop.Prelude.{
  ℕ, zero, suc, ◌+◌, ◌-◌, ◌*◌, ◌≤◌, ◌<◌, ◌≡◌, inl, inr, refl, sym, ap, ◌∙◌, false, List, [], ◌∷◌,
  ◌++◌, append_assoc, append-nil, some, arith, ltb, leb, ltb-false, Option-cases, length,
  length-append, get_or-append, get_or-append_left, drop-append, take-append,
}
use zakop.Text.{codes, join}
use zakop.DnsProxy.Message.{
  Bytes, byte_at, slice, uint16, decode_labels, decode_name, Query, parse_query, encode_labels,
}

-- A name ends behind its first byte and inside the message.
pub decode_labels_bounds :
    (d f : ℕ) (msg : Bytes) (off : ℕ) (labels : List Bytes) (name : Bytes) (end : ℕ)
    → decode_labels d f msg off labels ≡ some (name, end)
    → (off < end) × (end ≤ length msg)
unfolding decode_labels
decode_labels_bounds zero f msg off labels name end e = absurd (ground arith)
decode_labels_bounds (suc d) zero msg off labels name end e = absurd (ground arith)
decode_labels_bounds (suc d) (suc f) msg off labels name end e =
    let l = byte_at msg off in
    let next = off + 1 + l in
    ground (
      arith,
      decode_labels_bounds (suc d) f msg next (labels ++ (slice msg (off + 1) next ∷ [])) name end,
    )

-- Every question that `ParseQuery` accepts lies inside the message, behind the header.
pub parse_query_bounds :
    (msg : Bytes) {q : Query}
    → parse_query msg ≡ some q
    → (17 ≤ q.question_end) × (q.question_end ≤ length msg)
unfolding parse_query
parse_query_bounds msg {q} e = elim (Option-cases (decode_name msg 12 0)) [
  | inl no_name ↦ absurd (ground (arith, no_name))
  | inr ((name, end), found) ↦
      let b =
        decode_labels_bounds 9 (length msg + 1) msg 12 [] name end (unfold decode_name in found) in
      ground (arith, found, b)
]

-- The bound on the rounds of `decodeName` is never met: any two bounds that exceed what is left
-- of the message give the same result.
pub decode_labels_fuel :
    (d f g : ℕ) (msg : Bytes) (off : ℕ) (labels : List Bytes)
    → length msg < off + f
    → length msg < off + g
    → 0 < f
    → 0 < g
    → decode_labels d f msg off labels ≡ decode_labels d g msg off labels
unfolding decode_labels
decode_labels_fuel zero f g msg off labels p q r s = refl
decode_labels_fuel (suc d) zero g msg off labels p q r s = absurd (omega arith)
decode_labels_fuel (suc d) (suc f) zero msg off labels p q r s = absurd (omega arith)
decode_labels_fuel (suc d) (suc f) (suc g) msg off labels p q r s =
    let l = byte_at msg off in
    let next = off + 1 + l in
    ground
      (arith, decode_labels_fuel (suc d) f g msg next (labels ++ (slice msg (off + 1) next ∷ [])))

-- A label as a message may hold it: one to 63 bytes.
abbrev pub AreLabels : List Bytes → Type 0
AreLabels [] = Unit
AreLabels (l ∷ ls) = (0 < length l) × (length l < 64) × AreLabels ls

pub slice_append :
    (pre l tail : Bytes) (a b : ℕ)
    → a ≡ length pre
    → b ≡ a + length l
    → slice (pre ++ (l ++ tail)) a b ≡ l
slice_append pre l tail a b e h =
    rw (drop-append pre (l ++ tail) a e) (take-append l tail (b - a) (omega arith))

module _ (d : ℕ) (msg : Bytes) where
  decode_end :
      (f off : ℕ) (acc : List Bytes) (pre rest : Bytes)
      → msg ≡ pre ++ (0 ∷ rest)
      → off ≡ length pre
      → decode_labels (suc d) (suc f) msg off acc ≡ some (join acc (codes "."), off + 1)
  unfolding decode_labels
  decode_end f off acc pre rest e at =
      let here : byte_at msg off ≡ 0 = rw e (get_or-append pre 0 rest 0 off at) in
      let fits : leb (length msg) off ≡ false =
        ground (arith, length-append pre (0 ∷ rest), ap length e) in
      rw (here, fits)

  decode_step :
      (f off : ℕ) (acc : List Bytes) (pre l tail : Bytes)
      → 0 < length l
      → length l < 64
      → msg ≡ pre ++ (length l ∷ (l ++ tail))
      → off ≡ length pre
      → decode_labels (suc d) (suc f) msg off acc
        ≡ decode_labels (suc d) f msg (off + 1 + length l) (acc ++ (l ∷ []))
  unfolding decode_labels
  decode_step f off acc pre l tail pos small e at =
      let here : byte_at msg off ≡ length l =
        rw e (get_or-append pre (length l) (l ++ tail) 0 off at) in
      let size : length msg ≡ length pre + (1 + (length l + length tail)) =
        ground
          (arith, length-append pre (length l ∷ (l ++ tail)), length-append l tail, ap length e) in
      let cut : slice msg (off + 1) (off + 1 + length l) ≡ l =
        rw (e, ← append_assoc pre (length l ∷ []) (l ++ tail))
          (slice_append (pre ++ (length l ∷ [])) l tail (off + 1) (off + 1 + length l)
            (omega (arith, length-append pre (length l ∷ []))) refl) in
      rw (here, cut) (ground (arith, size))

  pub decode_labels-encode_labels :
      (ls : List Bytes) (f off : ℕ) (acc : List Bytes) (pre rest : Bytes)
      → AreLabels ls
      → length ls < f
      → msg ≡ pre ++ (encode_labels ls ++ rest)
      → off ≡ length pre
      → decode_labels (suc d) f msg off acc
        ≡ some (join (acc ++ ls) (codes "."), off + length (encode_labels ls))
  decode_labels-encode_labels [] zero off acc pre rest v h e at = absurd (omega arith)
  decode_labels-encode_labels [] (suc f) off acc pre rest v h e at =
      rw append-nil (decode_end f off acc pre rest e at)
  decode_labels-encode_labels (l ∷ ls) zero off acc pre rest v h e at = absurd (omega arith)
  decode_labels-encode_labels (l ∷ ls) (suc f) off acc pre rest v h e at =
      let tail = encode_labels ls ++ rest in
      let here : msg ≡ pre ++ (length l ∷ (l ++ tail)) =
        e ∙ ap (λ (t : Bytes). pre ++ (length l ∷ t)) (append_assoc l (encode_labels ls) rest) in
      let there : msg ≡ (pre ++ (length l ∷ l)) ++ tail =
        here ∙ sym (append_assoc pre (length l ∷ l) tail) in
      let ih =
        decode_labels-encode_labels ls f (off + 1 + length l) (acc ++ (l ∷ []))
          (pre ++ (length l ∷ l)) rest v.2 (omega arith) there
          (omega (arith, length-append pre (length l ∷ l))) in
      let size : off + length (encode_labels (l ∷ ls))
          ≡ off + 1 + length l + length (encode_labels ls) =
        omega (arith, length-append l (encode_labels ls)) in
      decode_step f off acc pre l tail v.0 v.1 here at
      ∙ ih
      ∙ rw (append_assoc acc (l ∷ []) ls, size)

length-le-encode : (ls : List Bytes) → length ls < length (encode_labels ls)
length-le-encode [] = omega arith
length-le-encode (l ∷ ls) = omega (arith, length-append l (encode_labels ls), length-le-encode ls)

-- A message whose header has one question, with a question behind it that is written without
-- pointers: labels of 1 to 63 bytes, then the type and the class. `ParseQuery` finds the labels
-- joined by dots, the type, and the offset behind the class, whatever follows.
pub parse_query-encode_labels :
    (header rest : Bytes) (ls : List Bytes) (t u c d : ℕ)
    → length header ≡ 12
    → uint16 header 4 ≡ 1
    → AreLabels ls
    → parse_query (header ++ (encode_labels ls ++ (t ∷ u ∷ c ∷ d ∷ rest)))
      ≡ some (record {
        name = join ls (codes ".");
        type = t * 256 + u;
        question_end = 12 + length (encode_labels ls) + 4;
      })
unfolding parse_query decode_name
parse_query-encode_labels header rest ls t u c d size one v =
    let name = encode_labels ls in
    let back = t ∷ u ∷ c ∷ d ∷ rest in
    let msg = header ++ (name ++ back) in
    let total : length msg ≡ 12 + (length name + (4 + length rest)) =
      omega (arith, length-append header (name ++ back), length-append name back) in
    let questions : uint16 msg 4 ≡ 1 = omega (
      arith,
      get_or-append_left header (name ++ back) 0 4 (omega arith),
      get_or-append_left header (name ++ back) 0 5 (omega arith),
    ) in
    let named =
      decode_labels-encode_labels 8 msg ls (length msg + 1) 12 [] header back v
        (omega (arith, length-le-encode ls)) refl (omega arith) in
    let regroup : msg ≡ (header ++ name) ++ back = sym (append_assoc header name back) in
    let front : 12 + length name ≡ length (header ++ name) =
      omega (arith, length-append header name) in
    let t_at : byte_at msg (12 + length name) ≡ t =
      rw regroup (get_or-append (header ++ name) t _ 0 _ front) in
    let u_at : byte_at msg (12 + length name + 1) ≡ u =
      rw (regroup, ← append_assoc (header ++ name) (t ∷ []) (u ∷ c ∷ d ∷ rest))
        (get_or-append ((header ++ name) ++ (t ∷ [])) u (c ∷ d ∷ rest) 0 _
          (omega (arith, front, length-append (header ++ name) (t ∷ [])))) in
    let long : ltb (length msg) 12 ≡ false = ltb-false _ _ (omega (arith, total)) in
    let holds : ltb (length msg) (12 + length name + 4) ≡ false =
      ltb-false _ _ (omega (arith, total)) in
    rw (long, questions, named, holds, t_at, u_at)
