-- ===== src/Nft/Lines.antt =====
-- The lines of `rulePacketMatches` by what they say, and which packets they take.
use zakop.Prelude.{
  ℕ, ◌≤◌, ◌≡◌, ◌⊎◌, ◌↔◌, inl, inr, refl, sym, ap, Bool, List, [], ◌∷◌, ◌++◌, Option, none, some,
  map, if◌then◌else◌,
}
use zakop.Text.{Str, codes}
use zakop.Text.Number.{itoa}
use zakop.Config.Clean.{Among}
use zakop.Nft.Packet.{match_line, dst_lines, src_lines, port_lines}

-- The transport, and the two ports.
pub record Packet : Type 0 where
  pub tcp : Bool
  pub src : ℕ
  pub dst : ℕ

abbrev pub proto_of : Packet → Str
proto_of k = if k.tcp then codes "tcp" else codes "udp"

-- A port, or a range of ports with both ends.
pub data Range : Type 0 where
  one : ℕ → Range
  span : ℕ → ℕ → Range

abbrev pub range_text : Range → Str
range_text (one a) = itoa a
range_text (span a b) = itoa a ++ (codes "-" ++ itoa b)

abbrev pub In : ℕ → Range → Type 0
In n (one a) = n ≡ a
In n (span a b) = (a ≤ n) × (n ≤ b)

-- A match on both transports, on one, or on one and ports, of which each may be left out.
pub data Line : Type 0 where
  both_transports : Line
  transport : Str → Line
  ports : Str → Option Range → Option Range → Line

abbrev pub port_text : Option Range → Str
port_text none = []
port_text (some r) = range_text r

abbrev pub line_text : Str → Line → Str
line_text base both_transports = base ++ codes " meta l4proto { tcp, udp }"
line_text base (transport p) = base ++ (codes " meta l4proto " ++ p)
line_text base (ports p s d) = match_line base p (port_text s) (port_text d)

abbrev pub InPorts : ℕ → Option Range → Type 0
InPorts n none = Unit
InPorts n (some r) = In n r

abbrev pub Takes : Packet → Line → Type 0
Takes k both_transports = Unit
Takes k (transport p) = p ≡ proto_of k
Takes k (ports p s d) = (p ≡ proto_of k) × InPorts k.src s × InPorts k.dst d

-- One of the elements has the property.
abbrev pub Any : {A : Type 0} → (A → Type 0) → List A → Type 0
Any P [] = ⊥
Any P (x ∷ xs) = P x ⊎ Any P xs

Any-append :
    {A : Type 0} (P : A → Type 0) (xs ys : List A) → Any P (xs ++ ys) ↔ (Any P xs ⊎ Any P ys)
Any-append P [] ys = ((λ a. inr a), (λ a. elim a [ inl b ↦ absurd b | inr b ↦ b ]))
Any-append P (x ∷ xs) ys =
    let (to, from) = Any-append P xs ys in
    (
      (λ a. elim a [
        | inl b ↦ inl (inl b)
        | inr b ↦ elim (to b) [ inl c ↦ inl (inr c) | inr c ↦ inr c ]
      ]),
      (λ a. elim a [
        | inl b ↦ elim b [ inl c ↦ inl c | inr c ↦ inr (from (inl c)) ]
        | inr b ↦ inr (from (inr b))
      ]),
    )

-- The lines for each transport, each source and each destination.
dst_of : Str → Option Range → List (Option Range) → List Line
dst_of p s [] = []
dst_of p s (d ∷ ds) = ports p s d ∷ dst_of p s ds

src_of : Str → List (Option Range) → List (Option Range) → List Line
src_of p [] ds = []
src_of p (s ∷ ss) ds = dst_of p s ds ++ src_of p ss ds

pub product : List Str → List (Option Range) → List (Option Range) → List Line
product [] ss ds = []
product (p ∷ ps) ss ds = src_of p ss ds ++ product ps ss ds

pub map-append :
    (base : Str) (xs ys : List Line)
    → map (line_text base) (xs ++ ys) ≡ map (line_text base) xs ++ map (line_text base) ys
map-append base [] ys = refl
map-append base (x ∷ xs) ys = ap (◌∷◌ (line_text base x)) (map-append base xs ys)

dst_lines-text :
    (base p : Str) (s : Option Range) (ds : List (Option Range))
    → dst_lines base p (port_text s) (map port_text ds) ≡ map (line_text base) (dst_of p s ds)
unfolding dst_lines dst_of
dst_lines-text base p s [] = refl
dst_lines-text base p s (d ∷ ds) =
    ap (◌∷◌ (match_line base p (port_text s) (port_text d))) (dst_lines-text base p s ds)

src_lines-text :
    (base p : Str) (ss ds : List (Option Range))
    → src_lines base p (map port_text ss) (map port_text ds) ≡ map (line_text base) (src_of p ss ds)
unfolding src_lines src_of
src_lines-text base p [] ds = refl
src_lines-text base p (s ∷ ss) ds =
    rw (dst_lines-text base p s ds, src_lines-text base p ss ds)
      (sym (map-append base (dst_of p s ds) (src_of p ss ds)))

pub port_lines-text :
    (base : Str) (ps : List Str) (ss ds : List (Option Range))
    → port_lines base ps (map port_text ss) (map port_text ds)
      ≡ map (line_text base) (product ps ss ds)
unfolding port_lines product
port_lines-text base [] ss ds = refl
port_lines-text base (p ∷ ps) ss ds =
    rw (src_lines-text base p ss ds, port_lines-text base ps ss ds)
      (sym (map-append base (src_of p ss ds) (product ps ss ds)))

-- Which packets the product takes.
module _ (k : Packet) where
  dst_of-Takes :
      (p : Str) (s : Option Range) (ds : List (Option Range))
      → Any (Takes k) (dst_of p s ds)
        ↔ ((p ≡ proto_of k) × InPorts k.src s × Any (InPorts k.dst) ds)
  unfolding dst_of
  dst_of-Takes p s [] = ((λ a. absurd a), (λ (_, _, a). a))
  dst_of-Takes p s (d ∷ ds) =
      let (to, from) = dst_of-Takes p s ds in
      (
        (λ a. elim a [
          | inl (e, i, j) ↦ (e, i, inl j)
          | inr b ↦ let (e, i, j) = to b in (e, i, inr j)
        ]),
        (λ (e, i, j). elim j [ inl l ↦ inl (e, i, l) | inr l ↦ inr (from (e, i, l)) ]),
      )

  src_of-Takes :
      (p : Str) (ss ds : List (Option Range))
      → Any (Takes k) (src_of p ss ds)
        ↔ ((p ≡ proto_of k) × Any (InPorts k.src) ss × Any (InPorts k.dst) ds)
  unfolding src_of
  src_of-Takes p [] ds = ((λ a. absurd a), (λ (_, a, _). a))
  src_of-Takes p (s ∷ ss) ds =
      let (to, from) = src_of-Takes p ss ds in
      let (to_dst, from_dst) = dst_of-Takes p s ds in
      let (apart, together) = Any-append (Takes k) (dst_of p s ds) (src_of p ss ds) in
      (
        (λ a. elim (apart a) [
          | inl b ↦ let (e, i, j) = to_dst b in (e, inl i, j)
          | inr b ↦ let (e, i, j) = to b in (e, inr i, j)
        ]),
        (λ (e, i, j). elim i [
          | inl l ↦ together (inl (from_dst (e, l, j)))
          | inr l ↦ together (inr (from (e, l, j)))
        ]),
      )

  pub product-Takes :
      (ps : List Str) (ss ds : List (Option Range))
      → Any (Takes k) (product ps ss ds)
        ↔ (Among (proto_of k) ps × Any (InPorts k.src) ss × Any (InPorts k.dst) ds)
  unfolding product
  product-Takes [] ss ds = ((λ a. absurd a), (λ (a, _, _). a))
  product-Takes (p ∷ ps) ss ds =
      let (to, from) = product-Takes ps ss ds in
      let (to_src, from_src) = src_of-Takes p ss ds in
      let (apart, together) = Any-append (Takes k) (src_of p ss ds) (product ps ss ds) in
      (
        (λ a. elim (apart a) [
          | inl b ↦ let (e, i, j) = to_src b in (inl e, i, j)
          | inr b ↦ let (e, i, j) = to b in (inr e, i, j)
        ]),
        (λ (e, i, j). elim e [
          | inl l ↦ together (inl (from_src (l, i, j)))
          | inr l ↦ together (inr (from (l, i, j)))
        ]),
      )
