-- ===== src/Lock/Exclusive/Updates.antt =====
-- How each kind of step of src/lock.ts by one process keeps the invariant.
use openwrt_configurator.Prelude.{Text, Bool, true, false, ◌≡◌, refl, sym, arith, ◌∙◌}
use openwrt_configurator.Lock.Machine.{Pc, set_pc}
use openwrt_configurator.Lock.Exclusive.Invariant.{
  has_lock, takes_over, removes, Nobody, Inv, set_pc-each, set_pc-AtMostOne, set_pc-free, not_other,
  not_true,
}

-- A step that makes and removes no directory, after which its process is where it was, or out.
pub lapse :
    {there over : Bool} {pcs : Text → Pc}
    → Inv there over pcs
    → (p : Text) (c : Pc) → (has_lock c ≡ true → has_lock (pcs p) ≡ true)
    → (takes_over c ≡ true → takes_over (pcs p) ≡ true)
    → (removes c ≡ true → removes (pcs p) ≡ true)
    → Inv there over (set_pc p c pcs)
lapse {there} {over} {pcs} inv p c h t r = record {
  one_has =
      set_pc-AtMostOne p c pcs has_lock inv.one_has
        (λ k q. not_other p q (has_lock (pcs q)) (inv.one_has p q (h k)));
  has_there =
      set_pc-each p c pcs (λ q d. has_lock d ≡ true → there ≡ true) (λ k. inv.has_there p (h k))
        (λ q n. inv.has_there q);
  one_takes =
      set_pc-AtMostOne p c pcs takes_over inv.one_takes
        (λ k q. not_other p q (takes_over (pcs q)) (inv.one_takes p q (t k)));
  takes_there =
      set_pc-each p c pcs (λ q d. takes_over d ≡ true → over ≡ true) (λ k. inv.takes_there p (t k))
        (λ q n. inv.takes_there q);
  removes_there =
      set_pc-each p c pcs (λ q d. removes d ≡ true → there ≡ true) (λ k. inv.removes_there p (r k))
        (λ q n. inv.removes_there q);
  removes_free =
      set_pc-free p c pcs inv.removes_free (λ k q. inv.removes_free p q (r k))
        (λ k q n. not_true (removes (pcs q)) (λ e. sym (h k) ∙ inv.removes_free q p e));
}

-- The lock is made where there is none.
pub makes_lock :
    {over : Bool} {pcs : Text → Pc}
    → Inv false over pcs
    → (p : Text) (c : Pc) → (takes_over c ≡ true → takes_over (pcs p) ≡ true)
    → removes c ≡ false
    → Inv true over (set_pc p c pcs)
makes_lock {over} {pcs} inv p c t r = record {
  one_has =
      set_pc-AtMostOne p c pcs has_lock inv.one_has
        (λ k q n. not_true (has_lock (pcs q)) (λ e. sym (inv.has_there q e)));
  has_there =
      set_pc-each p c pcs (λ q d. has_lock d ≡ true → true ≡ true) (λ k. refl) (λ q n k. refl);
  one_takes =
      set_pc-AtMostOne p c pcs takes_over inv.one_takes
        (λ k q. not_other p q (takes_over (pcs q)) (inv.one_takes p q (t k)));
  takes_there =
      set_pc-each p c pcs (λ q d. takes_over d ≡ true → over ≡ true) (λ k. inv.takes_there p (t k))
        (λ q n. inv.takes_there q);
  removes_there =
      set_pc-each p c pcs (λ q d. removes d ≡ true → true ≡ true) (λ k. refl) (λ q n k. refl);
  removes_free =
      set_pc-free p c pcs inv.removes_free (λ k. ground (arith, k, r))
        (λ k q n. not_true (removes (pcs q)) (λ e. sym (inv.removes_there q e)));
}

-- The takeover lock is made where there is none.
pub makes_takeover :
    {there : Bool} {pcs : Text → Pc}
    → Inv there false pcs
    → (p : Text) (c : Pc) → (has_lock c ≡ true → has_lock (pcs p) ≡ true)
    → removes c ≡ false
    → Inv there true (set_pc p c pcs)
makes_takeover {there} {pcs} inv p c h r = record {
  one_has =
      set_pc-AtMostOne p c pcs has_lock inv.one_has
        (λ k q. not_other p q (has_lock (pcs q)) (inv.one_has p q (h k)));
  has_there =
      set_pc-each p c pcs (λ q d. has_lock d ≡ true → there ≡ true) (λ k. inv.has_there p (h k))
        (λ q n. inv.has_there q);
  one_takes =
      set_pc-AtMostOne p c pcs takes_over inv.one_takes
        (λ k q n. not_true (takes_over (pcs q)) (λ e. sym (inv.takes_there q e)));
  takes_there =
      set_pc-each p c pcs (λ q d. takes_over d ≡ true → true ≡ true) (λ k. refl) (λ q n k. refl);
  removes_there =
      set_pc-each p c pcs (λ q d. removes d ≡ true → there ≡ true) (λ k. ground (arith, k, r))
        (λ q n. inv.removes_there q);
  removes_free =
      set_pc-free p c pcs inv.removes_free (λ k. ground (arith, k, r))
        (λ k q n. not_true (removes (pcs q)) (λ e. sym (h k) ∙ inv.removes_free q p e));
}

-- The takeover lock is removed where no other process takes over.
pub drops_takeover :
    {there over : Bool} {pcs : Text → Pc}
    → Inv there over pcs
    → (p : Text) (c : Pc) → (has_lock c ≡ true → has_lock (pcs p) ≡ true)
    → takes_over c ≡ false
    → removes c ≡ false
    → ((q : Text) → takes_over (pcs q) ≡ true → p ≡ q)
    → Inv there false (set_pc p c pcs)
drops_takeover {there} {over} {pcs} inv p c h t r only = record {
  one_has =
      set_pc-AtMostOne p c pcs has_lock inv.one_has
        (λ k q. not_other p q (has_lock (pcs q)) (inv.one_has p q (h k)));
  has_there =
      set_pc-each p c pcs (λ q d. has_lock d ≡ true → there ≡ true) (λ k. inv.has_there p (h k))
        (λ q n. inv.has_there q);
  one_takes =
      set_pc-AtMostOne p c pcs takes_over inv.one_takes
        (λ k q. not_other p q (takes_over (pcs q)) (only q));
  takes_there =
      set_pc-each p c pcs (λ q d. takes_over d ≡ true → false ≡ true) (λ k. ground (arith, k, t))
        (λ q n k. ground (arith, k, not_other p q (takes_over (pcs q)) (only q) n));
  removes_there =
      set_pc-each p c pcs (λ q d. removes d ≡ true → there ≡ true) (λ k. ground (arith, k, r))
        (λ q n. inv.removes_there q);
  removes_free =
      set_pc-free p c pcs inv.removes_free (λ k. ground (arith, k, r))
        (λ k q n. not_true (removes (pcs q)) (λ e. sym (h k) ∙ inv.removes_free q p e));
}

-- The lock is removed where no other process has it, nor is about to remove it.
pub drops_lock :
    {there over : Bool} {pcs : Text → Pc}
    → Inv there over pcs
    → (p : Text) (c : Pc) → has_lock c ≡ false
    → (takes_over c ≡ true → takes_over (pcs p) ≡ true)
    → removes c ≡ false
    → ((q : Text) → has_lock (pcs q) ≡ true → p ≡ q)
    → ((q : Text) → removes (pcs q) ≡ true → p ≡ q)
    → Inv false over (set_pc p c pcs)
drops_lock {there} {over} {pcs} inv p c h t r only last = record {
  one_has =
      set_pc-AtMostOne p c pcs has_lock inv.one_has
        (λ k q. not_other p q (has_lock (pcs q)) (only q));
  has_there =
      set_pc-each p c pcs (λ q d. has_lock d ≡ true → false ≡ true) (λ k. ground (arith, k, h))
        (λ q n k. ground (arith, k, not_other p q (has_lock (pcs q)) (only q) n));
  one_takes =
      set_pc-AtMostOne p c pcs takes_over inv.one_takes
        (λ k q. not_other p q (takes_over (pcs q)) (inv.one_takes p q (t k)));
  takes_there =
      set_pc-each p c pcs (λ q d. takes_over d ≡ true → over ≡ true) (λ k. inv.takes_there p (t k))
        (λ q n. inv.takes_there q);
  removes_there =
      set_pc-each p c pcs (λ q d. removes d ≡ true → false ≡ true) (λ k. ground (arith, k, r))
        (λ q n k. ground (arith, k, not_other p q (removes (pcs q)) (last q) n));
  removes_free =
      set_pc-free p c pcs inv.removes_free (λ k. ground (arith, k, r))
        (λ k q. not_other p q (removes (pcs q)) (last q));
}

-- The holder is found gone: the lock is there, and nobody has it.
pub decides :
    {there over : Bool} {pcs : Text → Pc}
    → Inv there over pcs
    → there ≡ true
    → (p : Text) (c : Pc) → takes_over (pcs p) ≡ true
    → Nobody has_lock pcs
    → has_lock c ≡ false
    → Inv there over (set_pc p c pcs)
decides {there} {over} {pcs} inv e p c t free h = record {
  one_has = set_pc-AtMostOne p c pcs has_lock inv.one_has (λ k q n. free q);
  has_there = set_pc-each p c pcs (λ q d. has_lock d ≡ true → there ≡ true) (λ k. e) (λ q n k. e);
  one_takes =
      set_pc-AtMostOne p c pcs takes_over inv.one_takes
        (λ k q. not_other p q (takes_over (pcs q)) (inv.one_takes p q t));
  takes_there =
      set_pc-each p c pcs (λ q d. takes_over d ≡ true → over ≡ true) (λ k. inv.takes_there p t)
        (λ q n. inv.takes_there q);
  removes_there =
      set_pc-each p c pcs (λ q d. removes d ≡ true → there ≡ true) (λ k. e) (λ q n k. e);
  removes_free = set_pc-free p c pcs inv.removes_free (λ k. free) (λ k q n. ground (arith, k, h));
}
