-- ===== src/Rt/Links.antt =====
-- The single reads and writes of Rt/Env.antt at a context that is there.
use mathlib.Core.Path.{fun_ext}
use generator_rs.Base.{
  ◌≡◌, ap, ◌≢◌, Option, some, arith, ◌==◌, if◌then◌else◌, Option-cases, inl, inr,
}
use generator_rs.Panic.{ok}
use generator_rs.Rt.Context.{Ptr, null, Context, Memory, load}
use generator_rs.Rt.Env.{set_parent, set_child}
use generator_rs.Rt.Ring.{parent_at, with_parent, with_child}

module _ {R : Type 0} where
  abbrev pub relink : Memory R → (Ptr → Option (Context R)) → Memory R
  relink m h = record m { contexts = h }

  pub load-ok :
      (p : Ptr) (m : Memory R) {q : Ptr}
      → p ≢ null
      → parent_at (m.contexts p) ≡ some q
      → (c : Context R) × (load p m ≡ ok c m) × (m.contexts p ≡ some c) × (c.parent ≡ q)
  unfolding load
  load-ok p m ne e = elim (Option-cases (m.contexts p)) [
    | inl z ↦ absurd (ground arith)
    | inr (c, z) ↦ (c, ground arith, z, ground arith)
  ]

  pub set_parent-ok :
      (p q : Ptr) (m : Memory R) {old : Ptr}
      → p ≢ null
      → parent_at (m.contexts p) ≡ some old
      → set_parent p q m ≡ ok tt (relink m (with_parent m.contexts p q))
  unfolding set_parent
  set_parent-ok p q m ne e =
      let (c, l, z, _) = load-ok p m ne e in
      rw (l, set_parent) (ap (λ h. ok tt (relink m h)) (fun_ext λ a. ground arith))

  pub set_child-ok :
      (p q : Ptr) (m : Memory R) {old : Ptr}
      → p ≢ null
      → parent_at (m.contexts p) ≡ some old
      → set_child p q m ≡ ok tt (relink m (with_child m.contexts p q))
  unfolding set_child
  set_child-ok p q m ne e =
      let (c, l, z, _) = load-ok p m ne e in
      rw (l, set_child) (ap (λ h. ok tt (relink m h)) (fun_ext λ a. ground arith))

  -- What the two writes leave of the links.
  pub parent-with_child :
      (h : Ptr → Option (Context R)) (p q a : Ptr)
      → parent_at (with_child h p q a) ≡ parent_at (h a)
  parent-with_child h p q a = ground arith

  pub parent-with_parent :
      (h : Ptr → Option (Context R)) (p q a : Ptr) {o : Ptr}
      → parent_at (h a) ≡ some o
      → parent_at (with_parent h p q a) ≡ some (if a == p then q else o)
  parent-with_parent h p q a e = ground arith
