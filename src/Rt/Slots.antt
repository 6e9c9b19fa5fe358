-- ===== src/Rt/Slots.antt =====
-- The typed cells of src/rt.rs: writes and reads at the type of a cell, and at others.
use generator_rs.Base.{
  ℕ, ◌≡◌, ◌≢◌, true, false, Option, none, some, arith, ◌==◌, update, update-update, ap,
}
use generator_rs.Panic.{ok, panic, fault, error, type_err, ◌>>◌}
use generator_rs.Rt.Context.{
  Ptr, null, TypeId, Slot, Context, Memory, load, load_para, store_para, load_ret, store_ret,
  take_para, take_ret, get_para, co_get_para, co_set_para, set_ret, co_set_ret,
}

module _ {R : Type 0} (m : Memory R) (c : Context R) (s : Slot) where
  abbrev pub with_para : Option ℕ → Memory R
  with_para v = record m { paras = update m.paras c.para (some (record s { value = v })) }

  abbrev pub with_ret : Option ℕ → Memory R
  with_ret v = record m { rets = update m.rets c.ret (some (record s { value = v })) }

module _ {R : Type 0} (m : Memory R) (self : Ptr) (c : Context R) (s : Slot) (t : TypeId)
    (ne : self ≢ null) (here : m.contexts self ≡ some c) where
  para_again :
      (u : Option ℕ)
      → record (with_para m c s u) {
        paras = update (with_para m c s u).paras c.para (some (record s { value = none }));
      }
        ≡ with_para m c s none
  para_again u = ap (λ q. record m { paras = q }) (update-update m.paras c.para _ _)

  ret_again :
      (u : Option ℕ)
      → record (with_ret m c s u) {
        rets = update (with_ret m c s u).rets c.ret (some (record s { value = none }));
      }
        ≡ with_ret m c s none
  ret_again u = ap (λ q. record m { rets = q }) (update-update m.rets c.ret _ _)

  get_para-taken :
      (u : Option ℕ)
      → c.para ≢ null
      → (s.ty == t) ≡ true
      → (get_para t self (with_para m c s u) ≡ ok u (with_para m c s none))
        × (co_get_para t self (with_para m c s u) ≡ ok u (with_para m c s none))
  unfolding get_para co_get_para load load_para store_para take_para
  get_para-taken u set y = rw⁻¹ (para_again u) (ground arith, ground arith)

  take_ret-taken : (u : Option ℕ) → take_ret c.ret (with_ret m c s u) ≡ ok u (with_ret m c s none)
  unfolding take_ret load_ret store_ret
  take_ret-taken u = rw⁻¹ (ret_again u) (ground arith)

  -- For a context whose para points to a cell: at the type of the cell, what co_set_para puts in is
  -- what get_para and co_get_para take out, and then the cell is empty; at another type get_para
  -- panics with TypeErr and the unchecked accesses are undefined behaviour.
  pub para_lem :
      (v : ℕ)
      → c.para ≢ null
      → m.paras c.para ≡ some s
      → ((s.ty == t) ≡ true
          → ((co_set_para t v self >> get_para t self) m ≡ ok (some v) (with_para m c s none))
            × ((co_set_para t v self >> co_get_para t self) m ≡ ok (some v) (with_para m c s none))
            × (get_para t self (with_para m c s none) ≡ ok none (with_para m c s none)))
        × ((s.ty == t) ≡ false
            → (get_para t self m ≡ panic (error type_err) m)
              × (co_get_para t self m ≡ fault)
              × (co_set_para t v self m ≡ fault))
  unfolding co_set_para get_para co_get_para load load_para store_para
  para_lem v set e = (
    λ y.
        let q = get_para-taken (some v) set y in
        let put : co_set_para t v self m ≡ ok tt (with_para m c s (some v)) = ground arith in
        (rw put q.0, rw put q.1, (get_para-taken none set y).0),
    λ n. (ground arith, ground arith, ground arith),
  )

  -- For a context whose ret points to a cell: at the type of the cell, what set_ret or co_set_ret
  -- puts in is what the caller takes, once; at another type set_ret panics with TypeErr and
  -- co_set_ret is undefined behaviour.
  pub ret_lem :
      (v : ℕ)
      → c.ret ≢ null
      → m.rets c.ret ≡ some s
      → ((s.ty == t) ≡ true
          → ((set_ret t v self >> take_ret c.ret) m ≡ ok (some v) (with_ret m c s none))
            × ((co_set_ret t v self >> take_ret c.ret) m ≡ ok (some v) (with_ret m c s none))
            × (take_ret c.ret (with_ret m c s none) ≡ ok none (with_ret m c s none)))
        × ((s.ty == t) ≡ false
            → (set_ret t v self m ≡ panic (error type_err) m) × (co_set_ret t v self m ≡ fault))
  unfolding set_ret co_set_ret load load_ret store_ret
  ret_lem v set e = (
    λ y.
        let put : set_ret t v self m ≡ ok tt (with_ret m c s (some v)) = ground arith in
        let put' : co_set_ret t v self m ≡ ok tt (with_ret m c s (some v)) = ground arith in
        (rw put (take_ret-taken (some v)), rw put' (take_ret-taken (some v)), take_ret-taken none),
    λ n. (ground arith, ground arith),
  )
