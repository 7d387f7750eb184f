-- ===== src/Lock/Exclusive/Invariant.antt =====
-- The invariant of the steps of src/lock.ts: which processes are where, and which directories are
-- there.
use openwrt_configurator.Prelude.{
  Text, Bool, true, false, ◌≡◌, refl, sym, text_eq, text_eq_iff, Bool-cases, inl, inr, arith,
}
use openwrt_configurator.Lock.{taken}
use openwrt_configurator.Lock.Machine.{
  Pc, owning, reading, dating, judging, removing, remaking, owning_over, leaving, holding, freeing,
  set_pc,
}

-- Between making the lock and giving it back.
abbrev pub has_lock : Pc → Bool
has_lock owning = true
has_lock owning_over = true
has_lock (leaving taken) = true
has_lock holding = true
has_lock freeing = true
has_lock _ = false

-- Between making the takeover lock and removing it.
abbrev pub takes_over : Pc → Bool
takes_over reading = true
takes_over (dating holder) = true
takes_over (judging holder at) = true
takes_over removing = true
takes_over remaking = true
takes_over owning_over = true
takes_over (leaving answer) = true
takes_over _ = false

abbrev pub removes : Pc → Bool
removes removing = true
removes _ = false

-- No two processes are at a call that `here` tells.
abbrev pub AtMostOne : (Pc → Bool) → (Text → Pc) → Type 0
AtMostOne here pcs = (p q : Text) → here (pcs p) ≡ true → here (pcs q) ≡ true → p ≡ q

abbrev pub Nobody : (Pc → Bool) → (Text → Pc) → Type 0
Nobody here pcs = (q : Text) → here (pcs q) ≡ false

pub record Inv (there over : Bool) (pcs : Text → Pc) : Type 0 where
  pub one_has : AtMostOne has_lock pcs
  pub has_there : (p : Text) → has_lock (pcs p) ≡ true → there ≡ true
  pub one_takes : AtMostOne takes_over pcs
  pub takes_there : (p : Text) → takes_over (pcs p) ≡ true → over ≡ true
  pub removes_there : (p : Text) → removes (pcs p) ≡ true → there ≡ true
  pub removes_free : (p q : Text) → removes (pcs p) ≡ true → has_lock (pcs q) ≡ false

-- What holds of a process that has taken a step and of every other as it was holds of each.
pub set_pc-each :
    (p : Text) (c : Pc) (pcs : Text → Pc) (P : Text → Pc → Type 0)
    → P p c
    → ((q : Text) → text_eq p q ≡ false → P q (pcs q))
    → (q : Text) → P q (set_pc p c pcs q)
unfolding set_pc
set_pc-each p c pcs P h k q = elim (Bool-cases (text_eq p q)) [
  | inl e ↦ rw e (rw (sym ((text_eq_iff p q).0 e)) h)
  | inr e ↦ rw e (k q e)
]

pub set_pc-AtMostOne :
    (p : Text) (c : Pc) (pcs : Text → Pc) (here : Pc → Bool)
    → AtMostOne here pcs
    → (here c ≡ true → (q : Text) → text_eq p q ≡ false → here (pcs q) ≡ false)
    → AtMostOne here (set_pc p c pcs)
set_pc-AtMostOne p c pcs here one new a b =
    set_pc-each p c pcs (λ x d. here d ≡ true → here (set_pc p c pcs b) ≡ true → x ≡ b)
      (λ h.
        set_pc-each p c pcs (λ y d. here d ≡ true → p ≡ y) (λ k. refl)
          (λ q n k. ground (arith, new h q n, k)) b)
      (λ x n h.
        set_pc-each p c pcs (λ y d. here d ≡ true → x ≡ y) (λ k. ground (arith, new k x n, h))
          (λ q m k. one x q h k) b)
      a

pub removes-takes_over : (c : Pc) → removes c ≡ true → takes_over c ≡ true
removes-takes_over removing h = refl
removes-takes_over _ h = ground (arith, h)

pub removes-has_lock : (c : Pc) → removes c ≡ true → has_lock c ≡ false
removes-has_lock removing h = refl
removes-has_lock _ h = ground (arith, h)

-- No process that removes is there with one that has the lock.
pub set_pc-free :
    (p : Text) (c : Pc) (pcs : Text → Pc)
    → ((a b : Text) → removes (pcs a) ≡ true → has_lock (pcs b) ≡ false)
    → (removes c ≡ true → Nobody has_lock pcs)
    → (has_lock c ≡ true → (q : Text) → text_eq p q ≡ false → removes (pcs q) ≡ false)
    → (a b : Text) → removes (set_pc p c pcs a) ≡ true
    → has_lock (set_pc p c pcs b) ≡ false
set_pc-free p c pcs free r h a b =
    set_pc-each p c pcs (λ x d. removes d ≡ true → has_lock (set_pc p c pcs b) ≡ false)
      (λ k. set_pc-each p c pcs (λ y d. has_lock d ≡ false) (removes-has_lock c k) (λ q n. r k q) b)
      (λ x n k.
        set_pc-each p c pcs (λ y d. has_lock d ≡ false)
          (elim (Bool-cases (has_lock c)) [ inl l ↦ ground (arith, h l x n, k) | inr l ↦ l ])
          (λ q m. free x q k) b)
      a

-- Only one process is at such a call.
pub not_other : (p q : Text) (b : Bool) → (b ≡ true → p ≡ q) → text_eq p q ≡ false → b ≡ false
not_other p q true h n = ground (arith, h, n, text_eq_iff p q)
not_other p q false h n = refl

pub not_true : (b : Bool) → (b ≡ true → true ≡ false) → b ≡ false
not_true true h = h refl
not_true false h = refl
