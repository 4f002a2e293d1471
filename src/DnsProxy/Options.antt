-- ===== src/DnsProxy/Options.antt =====
-- `stripEDNSClientSubnetOptions` against the options as a list: it drops those with the code of the
-- client subnet and keeps the bytes of all others.
use zakop.Prelude.{
  ℕ, zero, suc, ◌+◌, ◌*◌, ◌≤◌, ◌≡◌, ◌⊎◌, inl, inr, refl, sym, ap, ◌∙◌, Bool, true, false, ◌||◌,
  List, [], ◌∷◌, ◌++◌, append_assoc, append-nil, none, some, arith, ltb, ◌==◌, ltb-false,
  if◌then◌else◌, Bool-cases, length, length-append, take, drop, take-append, drop-append,
  take-append-drop, length-take,
}
use zakop.DnsProxy.Message.{Bytes}
use zakop.DnsProxy.Edns.{
  ecs_option, strip_from, strip_options, ecs_address, ecs_from, ecs_ipv4_from_options,
}

-- An option as its four bytes of code and length, and its value.
pub record EdnsOption : Type 0 where
  pub code_hi : ℕ
  pub code_lo : ℕ
  pub len_hi : ℕ
  pub len_lo : ℕ
  pub value : Bytes

abbrev pub code_of : EdnsOption → ℕ
code_of o = o.code_hi * 256 + o.code_lo

abbrev pub IsOption : EdnsOption → Type 0
IsOption o = length o.value ≡ o.len_hi * 256 + o.len_lo

abbrev pub AreOptions : List EdnsOption → Type 0
AreOptions [] = Unit
AreOptions (o ∷ os) = IsOption o × AreOptions os

abbrev pub option_bytes : EdnsOption → Bytes
option_bytes o = o.code_hi ∷ o.code_lo ∷ o.len_hi ∷ o.len_lo ∷ o.value

abbrev pub options_bytes : List EdnsOption → Bytes
options_bytes [] = []
options_bytes (o ∷ os) = option_bytes o ++ options_bytes os

-- The options that are no client subnet, and whether one is.
abbrev pub without_subnet : List EdnsOption → List EdnsOption
without_subnet [] = []
without_subnet (o ∷ os) =
    if code_of o == ecs_option then without_subnet os else o ∷ without_subnet os

abbrev pub has_subnet : List EdnsOption → Bool
has_subnet [] = false
has_subnet (o ∷ os) = if code_of o == ecs_option then true else has_subnet os

-- One round at an option.
strip_step :
    (f : ℕ) (o : EdnsOption) (tail out : Bytes) (changed : Bool)
    → IsOption o
    → strip_from (suc f) (option_bytes o ++ tail) out changed
      ≡ strip_from f tail
          (if code_of o == ecs_option then out else out ++ option_bytes o)
          (if code_of o == ecs_option then true else changed)
unfolding strip_from
strip_step f o tail out changed v =
    let rest = option_bytes o ++ tail in
    let next = 4 + (o.len_hi * 256 + o.len_lo) in
    let size : next ≡ length (option_bytes o) = omega arith in
    let total : length rest ≡ 4 + (length o.value + length tail) =
      omega (arith, length-append o.value tail) in
    let long : ltb (length rest) 4 ≡ false = ltb-false _ _ (omega (arith, total)) in
    let fits : ltb (length rest) next ≡ false = ltb-false _ _ (omega (arith, total)) in
    rw (
      long,
      fits,
      drop-append (option_bytes o) tail next size,
      take-append (option_bytes o) tail next size,
    )

strip_from-nil :
    (f : ℕ) (out : Bytes) (changed : Bool) → strip_from f [] out changed ≡ some (out, changed)
unfolding strip_from
strip_from-nil f out changed = refl

or_true : (b : Bool) → (b || true) ≡ true
or_true true = refl
or_true false = refl

or_false : (b : Bool) → (b || false) ≡ b
or_false true = refl
or_false false = refl

strip_from-options :
    (os : List EdnsOption) (f : ℕ) (out : Bytes) (changed : Bool)
    → AreOptions os
    → length os ≤ f
    → strip_from f (options_bytes os) out changed
      ≡ some (out ++ options_bytes (without_subnet os), changed || has_subnet os)
strip_from-options [] f out changed v h = rw (strip_from-nil f out changed, append-nil, or_false)
strip_from-options (o ∷ os) zero out changed v h = absurd (omega arith)
strip_from-options (o ∷ os) (suc f) out changed v h =
    strip_step f o (options_bytes os) out changed v.0
    ∙ strip_from-options os f _ _ v.1 (omega arith)
    ∙ elim (Bool-cases (code_of o == ecs_option)) [
      | inl subnet ↦ rw subnet (rw or_true)
      | inr kept ↦
          rw kept (rw (append_assoc out (option_bytes o) (options_bytes (without_subnet os))))
    ]

-- On the bytes of a list of whole options, `stripEDNSClientSubnetOptions` leaves the options
-- other than the client subnet, byte for byte and in order, and reports a change exactly when
-- one was dropped.
pub strip_options-options_bytes :
    (os : List EdnsOption)
    → AreOptions os
    → strip_options (options_bytes os) ≡ some (options_bytes (without_subnet os), has_subnet os)
unfolding strip_options
strip_options-options_bytes os v =
    strip_from-options os (length (options_bytes os)) [] false v (length-le os)
  where
    length-le : (ps : List EdnsOption) → length ps ≤ length (options_bytes ps)
    length-le [] = omega arith
    length-le (p ∷ ps) = omega (arith, length-append p.value (options_bytes ps), length-le ps)

abbrev whole_option : ℕ → ℕ → ℕ → ℕ → Bytes → EdnsOption
whole_option a b c d tail = record {
  code_hi = a;
  code_lo = b;
  len_hi = c;
  len_lo = d;
  value = take (c * 256 + d) tail;
}

enough :
    (f a b c d : ℕ) (tail out : Bytes) (changed : Bool) (r : Bytes × Bool)
    → strip_from (suc f) (a ∷ b ∷ c ∷ d ∷ tail) out changed ≡ some r
    → c * 256 + d ≤ length tail
unfolding strip_from
enough f a b c d tail out changed r e = ground arith

-- Bytes that are taken apart without an error are a list of whole options.
whole_options :
    (f : ℕ) (rest out : Bytes) (changed : Bool) (result : Bytes × Bool)
    → strip_from f rest out changed ≡ some result
    → (os : List EdnsOption) × AreOptions os × (rest ≡ options_bytes os)
unfolding strip_from
whole_options f [] out changed r e = ([], tt, refl)
whole_options zero (x ∷ xs) out changed r e = absurd (ground arith)
whole_options (suc f) (a ∷ []) out changed r e = absurd (ground arith)
whole_options (suc f) (a ∷ b ∷ []) out changed r e = absurd (ground arith)
whole_options (suc f) (a ∷ b ∷ c ∷ []) out changed r e = absurd (ground arith)
whole_options (suc f) (a ∷ b ∷ c ∷ d ∷ tail) out changed r e =
    let n = c * 256 + d in
    let fits : n ≤ length tail = enough f a b c d tail out changed r e in
    let o = whole_option a b c d tail in
    let valid : IsOption o = omega (arith, length-take n tail) in
    let e' : strip_from (suc f) (option_bytes o ++ drop n tail) out changed ≡ some r =
      rw (take-append-drop n tail) e in
    let (os, v, same) =
      whole_options f (drop n tail) _ _ r
        (sym (strip_step f o (drop n tail) out changed valid) ∙ e') in
    (o ∷ os, (valid, v), rw (← same) (rw (take-append-drop n tail)))

strip_options-whole :
    (options out : Bytes) (changed : Bool)
    → strip_options options ≡ some (out, changed)
    → (os : List EdnsOption) × AreOptions os
      × (options ≡ options_bytes os)
      × (out ≡ options_bytes (without_subnet os))
      × (changed ≡ has_subnet os)
strip_options-whole options out changed e =
    let (os, v, same) =
      whole_options (length options) options [] false (out, changed) (unfold strip_options in e) in
    let again : some (out, changed) ≡ some (options_bytes (without_subnet os), has_subnet os) =
      sym e ∙ ap strip_options same ∙ strip_options-options_bytes os v in
    (os, v, same, cc again, cc again)

without_subnet-AreOptions :
    (os : List EdnsOption)
    → AreOptions os
    → AreOptions (without_subnet os)
      × (has_subnet (without_subnet os) ≡ false)
      × (without_subnet (without_subnet os) ≡ without_subnet os)
without_subnet-AreOptions [] v = (tt, refl, refl)
without_subnet-AreOptions (o ∷ os) v =
    let ih = without_subnet-AreOptions os v.1 in
    elim (Bool-cases (code_of o == ecs_option)) [
      | inl subnet ↦ rw subnet ih
      | inr kept ↦ rw (kept, kept) ((v.0, ih.0), ih.1, rw ih.2)
    ]

without_subnet_same : (os : List EdnsOption) → has_subnet os ≡ false → without_subnet os ≡ os
without_subnet_same [] h = refl
without_subnet_same (o ∷ os) h = elim (Bool-cases (code_of o == ecs_option)) [
  | inl subnet ↦ absurd (ground (arith, h))
  | inr kept ↦ rw kept (ap (◌∷◌ o) (without_subnet_same os (ground (arith, h))))
]

-- With no client subnet among them the options hold no address.
ecs_from-options :
    (os : List EdnsOption) (f : ℕ)
    → AreOptions os
    → has_subnet os ≡ false
    → ecs_from f (options_bytes os) ≡ []
unfolding ecs_from
ecs_from-options os zero v h = refl
ecs_from-options [] (suc f) v h = refl
ecs_from-options (o ∷ os) (suc f) v h =
    let next = 4 + (o.len_hi * 256 + o.len_lo) in
    let kept : (code_of o == ecs_option) ≡ false = ground (arith, h) in
    let other : (w : Bytes) → ecs_address (code_of o) w ≡ none =
      λ w. unfold ecs_address in rw kept in
    let tail = drop-append (option_bytes o) (options_bytes os) next (omega arith) in
    let ih = ecs_from-options os f v.1 (ground (arith, h)) in rw (other _, tail, ih) (ground arith)

length-without_subnet :
    (os : List EdnsOption) → length (options_bytes (without_subnet os)) ≤ length (options_bytes os)
length-without_subnet [] = omega arith
length-without_subnet (o ∷ os) = elim (Bool-cases (code_of o == ecs_option)) [
  | inl subnet ↦
      rw subnet (omega (arith, length-without_subnet os, length-append o.value (options_bytes os)))
  | inr kept ↦ rw kept (
      omega (
        arith,
        length-without_subnet os,
        length-append o.value (options_bytes os),
        length-append o.value (options_bytes (without_subnet os)),
      ))
]

-- What is left of the options holds no client subnet: no address is read from it, and removing
-- again changes nothing. It is no longer than the options, and a change is reported or it is the
-- options themselves.
pub strip_options_no_subnet :
    (options out : Bytes) (changed : Bool)
    → strip_options options ≡ some (out, changed)
    → (ecs_ipv4_from_options out ≡ [])
      × (strip_options out ≡ some (out, false))
      × (length out ≤ length options)
      × ((changed ≡ true) ⊎ (out ≡ options))
strip_options_no_subnet options out changed e =
    let (os, v, same, left, flag) = strip_options-whole options out changed e in
    let (w, none_left, again) = without_subnet-AreOptions os v in
    (
      unfold ecs_ipv4_from_options in rw left (ecs_from-options (without_subnet os) _ w none_left),
      rw left (strip_options-options_bytes (without_subnet os) w ∙ rw (none_left, again)),
      rw (left, same) (length-without_subnet os),
      elim (Bool-cases (has_subnet os)) [
        | inl dropped ↦ inl (flag ∙ dropped)
        | inr kept ↦ inr (left ∙ ap options_bytes (without_subnet_same os kept) ∙ sym same)
      ],
    )
