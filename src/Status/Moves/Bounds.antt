-- ===== src/Status/Moves/Bounds.antt =====
-- What src/status/moves.ts keeps stays bounded, whatever was kept before.
use mathlib.Core.Option.{some-injective}
use openwrt_configurator.Prelude.{
  Text, ℕ, zero, suc, ◌+◌, ◌-◌, ◌≤◌, ◌<◌, Option, none, some, List, [], ◌∷◌, ◌++◌, Bool, true,
  false, not, ◌&&◌, leb, is_empty, length, select, take, Object, put, lookup, keys, unique, or_else,
  text_eq, All, All-map, ◌≡◌, refl, sym, ap, ◌∙◌, inl, inr, Bool-cases, arith,
}
use openwrt_configurator.Status.Moves.{
  ClientMove, Place, Moves, gone_after_misses, Client, Connection, wifi, cable, nowhere, place_of,
  is_recent, latest, kept_moves, Stepped, kept_places, missed_step, step_client, stepped_of, online,
  online_from, told_all, update_moves,
}

-- The moves kept of a remembered client: some, no more than thirty, none of them a week old.
abbrev pub FewMoves : (Text → Bool) → ℕ → Text × List ClientMove → Type 0
FewMoves remembered at (mac, moves) =
    (remembered mac ≡ true)
    × (is_empty moves ≡ false)
    × (length moves ≤ 30)
    × All (λ m. at - m.at < 604800000) moves

-- A place is of a client that the last read missed at most.
abbrev pub FewMisses : Text × Place → Type 0
FewMisses (mac, place) = or_else place.missed 0 < 2

length-take : (n : ℕ) (ms : List ClientMove) → length (take n ms) ≤ n
unfolding take
length-take zero ms = omega arith
length-take (suc n) [] = omega arith
length-take (suc n) (m ∷ ms) = omega (arith, length-take n ms)

select-All :
    (at : ℕ) (ms : List ClientMove) → All (λ m. at - m.at < 604800000) (select (is_recent at) ms)
unfolding select
select-All at [] = tt
select-All at (m ∷ ms) = elim (Bool-cases (is_recent at m)) [
  | inl e ↦ rw e (ground (arith, e), select-All at ms)
  | inr e ↦ rw e (select-All at ms)
]

take-All : (P : ClientMove → Type 0) (n : ℕ) (ms : List ClientMove) → All P ms → All P (take n ms)
unfolding take
take-All P zero ms h = tt
take-All P (suc n) [] h = tt
take-All P (suc n) (m ∷ ms) h = (h.0, take-All P n ms h.1)

kept_moves-FewMoves :
    (remembered : Text → Bool) (at : ℕ) (all : Object (List ClientMove))
    → All (FewMoves remembered at) (kept_moves remembered at all)
unfolding kept_moves latest
kept_moves-FewMoves remembered at [] = tt
kept_moves-FewMoves remembered at ((mac, moves) ∷ all) =
    elim (Bool-cases (remembered mac && not (is_empty (latest at moves)))) [
      | inr e ↦ rw e (kept_moves-FewMoves remembered at all)
      | inl e ↦ rw e (
        (
          ground (arith, e),
          ground (arith, e),
          length-take 30 (select (is_recent at) moves),
          take-All (λ m. at - m.at < 604800000) 30 (select (is_recent at) moves)
              (select-All at moves),
        ),
        kept_moves-FewMoves remembered at all,
      )
    ]

-- What a client's step keeps of its place.
abbrev KeptAt : Text → Option Place → Type 0
KeptAt mac none = Unit
KeptAt mac (some p) = FewMisses (mac, p)

abbrev KeptFew : Stepped → Type 0
KeptFew s = KeptAt s.mac s.place

missed_step-KeptFew : (mac : Text) (was : Place) (at : ℕ) → KeptFew (missed_step mac was at)
missed_step-KeptFew mac was at =
    elim (Bool-cases (leb gone_after_misses (or_else was.missed 0 + 1))) [
      | inl e ↦ rw e tt
      | inr e ↦ rw e (ground (arith, e))
    ]

-- The client was there.
abbrev Fresh : Text × Place → Type 0
Fresh (mac, place) = place.missed ≡ none

put-Fresh :
    (k : Text) (v : Place) (o : Object Place)
    → v.missed ≡ none
    → All Fresh o
    → All Fresh (put k v o)
unfolding put
put-Fresh k v [] e h = (e, tt)
put-Fresh k v ((j, w) ∷ o) e h = elim (Bool-cases (text_eq j k)) [
  | inl t ↦ rw t (e, h.1)
  | inr t ↦ rw t (h.0, put-Fresh k v o e h.1)
]

place_of_fresh : (c : Client) → (place_of c).missed ≡ none
place_of_fresh c = of_connection c.connection
  where
    of_connection :
        (k : Connection)
        → (place_of (record { mac = c.mac; is_online = c.is_online; connection = k })).missed ≡ none
    of_connection (wifi ap b) = refl
    of_connection cable = refl

online_from-Fresh :
    (o : Object Place) (cs : List Client) → All Fresh o → All Fresh (online_from o cs)
unfolding online_from
online_from-Fresh o [] h = h
online_from-Fresh o (c ∷ cs) h = elim (Bool-cases c.is_online) [
  | inl e ↦ rw e (
      online_from-Fresh (put c.mac (place_of c) o) cs
        (put-Fresh c.mac (place_of c) o (place_of_fresh c) h))
  | inr e ↦ rw e (online_from-Fresh o cs h)
]

lookup-Fresh :
    (k : Text) (o : Object Place) (p : Place) → All Fresh o → lookup k o ≡ some p → p.missed ≡ none
unfolding lookup
lookup-Fresh k [] p h e = ground (arith, e)
lookup-Fresh k ((j, w) ∷ o) p h e = elim (Bool-cases (text_eq j k)) [
  | inl t ↦ sym (ap (λ q. q.missed) (some-injective w p (rw t at e))) ∙ h.0
  | inr t ↦ lookup-Fresh k o p h.1 (rw t at e)
]

step_client-KeptFew :
    (mac : Text) (was now : Option Place) (at : ℕ)
    → ((p : Place) → now ≡ some p → p.missed ≡ none)
    → KeptFew (step_client mac was now at)
unfolding step_client
step_client-KeptFew mac was none at h = missed_step-KeptFew mac (or_else was nowhere) at
step_client-KeptFew mac was (some p) at h = rw (h p refl) (omega arith)

abbrev added : Text → Option Place → Object Place → Object Place
added mac place rest = elim place [ none ↦ rest | some p ↦ (mac, p) ∷ rest ]

added-FewMisses :
    (mac : Text) (place : Option Place) (rest : Object Place)
    → KeptAt mac place
    → All FewMisses rest
    → All FewMisses (added mac place rest)
added-FewMisses mac none rest h k = k
added-FewMisses mac (some p) rest h k = (h, k)

kept_places-FewMisses :
    (places now : Object Place) (at : ℕ) (macs : List Text)
    → All Fresh now
    → All FewMisses (kept_places (stepped_of places now at macs))
unfolding kept_places stepped_of
kept_places-FewMisses places now at [] h = tt
kept_places-FewMisses places now at (mac ∷ macs) h =
    let s = step_client mac (lookup mac places) (lookup mac now) at in
    added-FewMisses s.mac s.place (kept_places (stepped_of places now at macs))
      (step_client-KeptFew mac (lookup mac places) (lookup mac now) at
        (λ p e. lookup-Fresh mac now p h e))
      (kept_places-FewMisses places now at macs h)

Fresh-FewMisses : (e : Text × Place) → Fresh e → FewMisses e
Fresh-FewMisses (mac, place) h = rw h (omega arith)

-- After a read, whatever was kept before it: every place is of a client that at most one read has
-- missed, and the moves kept are of clients that are remembered, of each at least one and at most
-- thirty, none of them a week old.
pub update_moves-bounded :
    (moves : Option Moves) (clients : List Client) (at : ℕ) (remembered : Text → Bool)
    → All FewMisses (update_moves moves clients at remembered).places
      × All (FewMoves remembered at) (update_moves moves clients at remembered).by_client
unfolding update_moves online
update_moves-bounded none clients at remembered =
    (All-map Fresh FewMisses Fresh-FewMisses (online clients) (online_from-Fresh [] clients tt), tt)
update_moves-bounded (some moves) clients at remembered = (
  kept_places-FewMisses moves.places (online clients) at
      (unique (keys moves.places ++ keys (online clients))) (online_from-Fresh [] clients tt),
  kept_moves-FewMoves remembered at (
      told_all
        (stepped_of moves.places (online clients) at
          (unique (keys moves.places ++ keys (online clients))))
        moves.by_client),
)
