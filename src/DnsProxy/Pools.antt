-- ===== src/DnsProxy/Pools.antt =====
-- Queries that run at the same time: each reserves a slot, waits for its upstream, and gives the
-- slot back. The steps of different queries interleave in any order.
use zakop.Prelude.{
  ℕ, ◌+◌, ◌≤◌, ◌≡◌, inl, inr, refl, subst, true, false, List, [], ◌∷◌, ◌++◌, Option, none, some,
  arith, if◌then◌else◌, Bool-cases, Option-cases,
}
use zakop.Text.{Str, str_eq}
use zakop.DnsProxy.Routing.{Proxy}
use zakop.DnsProxy.Forward.{
  Slots, Pools, acquire, give_back, reserve_forward, release_forward, new_pools,
  max_fake_dns_forwards, max_real_dns_forwards,
}

-- The pools, and the upstreams of the forwards in flight.
pub record Traffic : Type 0 where
  pub pools : Pools
  pub in_flight : List Str

abbrev pub start : Traffic
start = record { pools = new_pools; in_flight = [] }

-- A query begins to wait for its upstream, or one that waits is done.
pub data Step (p : Proxy) : Traffic → Traffic → Type 0 where
  begin :
      (t : Traffic) (upstream : Str) (reserved : Pools)
      → reserve_forward p t.pools upstream ≡ some reserved
      → Step p t (record { pools = reserved; in_flight = upstream ∷ t.in_flight })
  finish :
      (t : Traffic) (before after : List Str) (upstream : Str)
      → t.in_flight ≡ before ++ (upstream ∷ after)
      → Step p t
          (record { pools = release_forward p t.pools upstream; in_flight = before ++ after })

pub data Reach (p : Proxy) : Traffic → Type 0 where
  here : Reach p start
  next : {t u : Traffic} → Reach p t → Step p t u → Reach p u

-- How many of the forwards are to the FakeIP server, or not to it.
abbrev pub to_fake : Proxy → List Str → ℕ
to_fake p [] = 0
to_fake p (u ∷ us) = (if str_eq u p.fake_upstream then 1 else 0) + to_fake p us

abbrev pub to_real : Proxy → List Str → ℕ
to_real p [] = 0
to_real p (u ∷ us) = (if str_eq u p.fake_upstream then 0 else 1) + to_real p us

-- A pool holds exactly its forwards and no more than its capacity.
abbrev Holds : ℕ → ℕ → Option Slots → Type 0
Holds capacity n none = ⊥
Holds capacity n (some s) = (s.capacity ≡ capacity) × (s.used ≡ n) × (n ≤ capacity)

slots_of :
    (capacity n : ℕ) (s : Option Slots)
    → Holds capacity n s
    → (n ≤ capacity) × (s ≡ some (record { capacity = capacity; used = n }))
slots_of capacity n none h = absurd h
slots_of capacity n (some s) h = ground arith

record Counted (p : Proxy) (t : Traffic) : Type 0 where
  fake : Holds max_fake_dns_forwards (to_fake p t.in_flight) t.pools.fake
  real : Holds max_real_dns_forwards (to_real p t.in_flight) t.pools.real

to_fake-append : (p : Proxy) (us vs : List Str) → to_fake p (us ++ vs) ≡ to_fake p us + to_fake p vs
to_fake-append p [] vs = omega arith
to_fake-append p (u ∷ us) vs = omega (arith, to_fake-append p us vs)

to_real-append : (p : Proxy) (us vs : List Str) → to_real p (us ++ vs) ≡ to_real p us + to_real p vs
to_real-append p [] vs = omega arith
to_real-append p (u ∷ us) vs = omega (arith, to_real-append p us vs)

acquire-Holds :
    (c n : ℕ) (s t : Option Slots) → Holds c n s → acquire s ≡ some t → Holds c (1 + n) t
unfolding acquire
acquire-Holds c n none t h e = absurd h
acquire-Holds c n (some s) none h e = ground arith
acquire-Holds c n (some s) (some t) h e = ground arith

give_back-Holds : (c n : ℕ) (s : Option Slots) → Holds c (1 + n) s → Holds c n (give_back s)
unfolding give_back
give_back-Holds c n none h = absurd h
give_back-Holds c n (some s) h = ground arith

Holds-eq : (c n m : ℕ) (s : Option Slots) → n ≡ m → Holds c n s → Holds c m s
Holds-eq c n m s e h = subst (λ k. Holds c k s) e h

reserve_fake :
    (p : Proxy) (pools reserved : Pools) (upstream : Str)
    → str_eq upstream p.fake_upstream ≡ true
    → reserve_forward p pools upstream ≡ some reserved
    → (s : Option Slots) × (acquire pools.fake ≡ some s) × (reserved ≡ record pools { fake = s })
unfolding reserve_forward
reserve_fake p pools reserved upstream fake e = elim (Option-cases (acquire pools.fake)) [
  | inl full ↦ absurd (ground (arith, fake, full, e))
  | inr (s, took) ↦ (s, took, ground (arith, e, fake, took))
]

reserve_real :
    (p : Proxy) (pools reserved : Pools) (upstream : Str)
    → str_eq upstream p.fake_upstream ≡ false
    → reserve_forward p pools upstream ≡ some reserved
    → (s : Option Slots) × (acquire pools.real ≡ some s) × (reserved ≡ record pools { real = s })
unfolding reserve_forward
reserve_real p pools reserved upstream real e = elim (Option-cases (acquire pools.real)) [
  | inl full ↦ absurd (ground (arith, real, full, e))
  | inr (s, took) ↦ (s, took, ground (arith, e, real, took))
]

Step-Counted : {p : Proxy} {t u : Traffic} → Step p t u → Counted p t → Counted p u
unfolding release_forward
Step-Counted {p} (begin t upstream reserved e) c =
    elim (Bool-cases (str_eq upstream p.fake_upstream)) [
      | inl fake ↦
          let (s, took, same) = reserve_fake p t.pools reserved upstream fake e in
          let a =
            acquire-Holds max_fake_dns_forwards (to_fake p t.in_flight) t.pools.fake s c.fake
              took in
          rw same (record {
            fake = rw fake a;
            real = rw fake (Holds-eq _ _ _ t.pools.real (omega arith) c.real);
          })
      | inr real ↦
          let (s, took, same) = reserve_real p t.pools reserved upstream real e in
          let a =
            acquire-Holds max_real_dns_forwards (to_real p t.in_flight) t.pools.real s c.real
              took in
          rw same (record {
            real = rw real a;
            fake = rw real (Holds-eq _ _ _ t.pools.fake (omega arith) c.fake);
          })
    ]
Step-Counted {p} (finish t before after upstream e) c =
    let fakes : to_fake p t.in_flight ≡ to_fake p before + to_fake p (upstream ∷ after) =
      rw e (to_fake-append p before (upstream ∷ after)) in
    let reals : to_real p t.in_flight ≡ to_real p before + to_real p (upstream ∷ after) =
      rw e (to_real-append p before (upstream ∷ after)) in
    let fakes' = to_fake-append p before after in
    let reals' = to_real-append p before after in
    elim (Bool-cases (str_eq upstream p.fake_upstream)) [
      | inl fake ↦ rw fake (record {
        fake =
            give_back-Holds _ _ t.pools.fake
              (Holds-eq _ _ _ t.pools.fake (ground (arith, fakes, fakes', fake)) c.fake);
        real = Holds-eq _ _ _ t.pools.real (ground (arith, reals, reals', fake)) c.real;
      })
      | inr real ↦ rw real (record {
        fake = Holds-eq _ _ _ t.pools.fake (ground (arith, fakes, fakes', real)) c.fake;
        real =
            give_back-Holds _ _ t.pools.real
              (Holds-eq _ _ _ t.pools.real (ground (arith, reals, reals', real)) c.real);
      })
    ]

Reach-Counted : {p : Proxy} {t : Traffic} → Reach p t → Counted p t
Reach-Counted here = record { fake = (refl, refl, omega arith); real = (refl, refl, omega arith) }
Reach-Counted (next r s) = Step-Counted s (Reach-Counted r)

-- In every state that interleaved queries can reach, at most 32 forwards are in flight to the
-- FakeIP server and at most 96 to the others, and the two channels hold exactly these.
pub Reach-bounds :
    (p : Proxy) (t : Traffic)
    → Reach p t
    → (to_fake p t.in_flight ≤ 32)
      × (to_real p t.in_flight ≤ 96)
      × (t.pools.fake ≡ some (record { capacity = 32; used = to_fake p t.in_flight }))
      × (t.pools.real ≡ some (record { capacity = 96; used = to_real p t.in_flight }))
Reach-bounds p t r =
    let c = Reach-Counted r in
    let (f, fe) = slots_of max_fake_dns_forwards (to_fake p t.in_flight) t.pools.fake c.fake in
    let (g, ge) = slots_of max_real_dns_forwards (to_real p t.in_flight) t.pools.real c.real in
    (f, g, fe, ge)
