-- ===== src/Examples/Steps.antt =====
-- Steps of the abstract view, put together.
use generator_rs.Base.{
  ℕ, zero, suc, ◌+◌, ◌*◌, ◌≤◌, ◌≡◌, refl, ap, ◌∙◌, none, some, arith, Option-cases, inl, inr, [],
}
use generator_rs.Gen.Types.{Client, World, Reply, Op, ret, call, main}
use generator_rs.Gen.Machine.{returned, running, run}
use generator_rs.Coroutine.Abstract.{going, ended, View, advance, advances, go, ask}
use generator_rs.Coroutine.Refines.{Represents, thread}
use generator_rs.Coroutine.Runs.{advances_lem, advances_returns}

module _ (cl : Client) where
  -- The view makes some steps to another.
  abbrev pub Leads : View cl.Local → View cl.Local → Type 0
  Leads a b = (n : ℕ) × (advances cl n a ≡ some b)

  pub stay : (a : View cl.Local) → Leads a a
  unfolding advances
  stay a = (0, refl)

  advances-add :
      (i : ℕ) (j : ℕ) (a b : View cl.Local)
      → advances cl i a ≡ some b
      → advances cl (i + j) a ≡ advances cl j b
  unfolding advances
  advances-add zero j a b e =
      let z : 0 + j ≡ j = omega arith in let same : a ≡ b = cc in rw (z, same) refl
  advances-add (suc i) j a b e = elim (Option-cases (advance cl a)) [
    | inl z ↦ let y : none ≡ some b = rw z at e in absurd cc
    | inr (c, z) ↦
        let k : suc i + j ≡ suc (i + j) = omega arith in
        rw (k, z) (advances-add i j c b (rw z at e))
  ]

  pub then_on : (a b c : View cl.Local) → Leads a b → Leads b c → Leads a c
  then_on a b c (i, e) (j, f) = (i + j, advances-add i j a b e ∙ f)

  -- A call that the view answers.
  pub calls :
      (a b : View cl.Local) (s t : cl.Local) (r : Reply) (o : Op cl.Local)
      → a.stage ≡ going s r
      → cl.next s r ≡ call o t
      → ask a o t ≡ some b
      → Leads a b
  unfolding advances advance go
  calls a b s t r o e f g = (1, rw (e, f, g) refl)

  -- The thread that starts in the state of a view that leads to an end returns its value.
  pub thread_returns :
      (a b : View cl.Local) (x : ℕ) (w : World cl.Local)
      → Represents a w
      → Leads a b
      → b.stage ≡ ended x
      → (n : ℕ) × ((j : ℕ) → n ≤ j → (run cl j (thread a w)).focus ≡ returned x)
  thread_returns a b x w v (n, e) f = (2 * n, λ j l. advances_returns cl n j x a b w v e f l)

  -- The thread's own code ends.
  pub ends_with :
      (a : View cl.Local) (s : cl.Local) (r : Reply) (x : ℕ)
      → a.stage ≡ going s r
      → a.active ≡ []
      → cl.next s r ≡ ret x
      → Leads a (record a { stage = ended x })
  unfolding advances advance go
  ends_with a s r x e f g = (1, rw (e, g, f) refl)

  -- The thread comes to where the view leads, in the thread's own code.
  pub thread_arrives :
      (a b : View cl.Local) (s : cl.Local) (r : Reply) (w : World cl.Local)
      → Represents a w
      → Leads a b
      → b.stage ≡ going s r
      → b.active ≡ []
      → (n : ℕ) × ((run cl n (thread a w)).focus ≡ running main s r)
  thread_arrives a b s r w v (n, e) f g =
      let (k, w', _, _, h, _) = advances_lem cl n a b w v e in
      (k, ap (λ m. m.focus) h ∙ rw (f, g) refl)
