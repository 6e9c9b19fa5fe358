-- ===== src/Tests/Rings.antt =====
-- Two rings of contexts, at 4 and at 12, before and after they are joined.
use generator_rs.Base.{
  ◌≡◌, refl, true, false, Option, none, some, [], ◌∷◌, arith, ◌==◌, if◌then◌else◌,
}
use generator_rs.Panic.{ok, panic, fault, error, type_err, ◌>>◌}
use generator_rs.Rt.Context.{Ptr, Context, Memory, Slot, get_para, co_get_para, co_set_para}
use generator_rs.Rt.Env.{push_context, pop_context, co_ctx, guard_current}
use generator_rs.Rt.Ring.{Ring}
use generator_rs.Rt.Links.{relink}
use generator_rs.Rt.Splice.{OnlyLinks, push_context_lem, pop_context_lem, push_context-pop_context}
use generator_rs.Rt.Search.{co_ctx_lem, guard_current_lem}
use generator_rs.Rt.Slots.{with_para, para_lem}

abbrev linked : (parent child local_data : Ptr) → Context (Unit {0})
linked parent child local_data = record {
  regs = tt;
  child = child;
  parent = parent;
  para = 8;
  ret = 8;
  ref = 1;
  local_data = local_data;
  err = none;
  stack_guard = (8192, 12000);
}

abbrev four : (a b c d : Context (Unit {0})) → Ptr → Option (Context (Unit {0}))
four a b c d p =
    if p == 4
    then some a
    else if p == 8
    then some b
    else if p == 12
    then some c
    else if p == 16
    then some d
    else none

abbrev memory : (Ptr → Option (Context (Unit {0}))) → Memory (Unit {0})
memory h = record {
  root = 4;
  contexts = h;
  paras = λ p. if p == 8 then some (record { ty = 1; value = none }) else none;
  rets = λ p. if p == 8 then some (record { ty = 1; value = none }) else none;
}

-- 8 runs; 16 waits above 12.
abbrev apart : Memory (Unit {0})
apart = memory (four (linked 8 8 0) (linked 4 0 0) (linked 16 16 33) (linked 12 0 0))

-- All run.
abbrev joined : Memory (Unit {0})
joined = memory (four (linked 16 8 0) (linked 4 12 0) (linked 8 16 33) (linked 12 0 0))

Ring-running : Ring apart.contexts 4 (8 ∷ [])
Ring-running = record {
  base = (ground arith, refl, refl);
  chain = ((ground arith, refl, refl), tt);
  distinct = (refl, (refl, tt));
}

Ring-waiting : Ring apart.contexts 12 (16 ∷ [])
Ring-waiting = record {
  base = (ground arith, refl, refl);
  chain = ((ground arith, refl, refl), tt);
  distinct = (refl, (refl, tt));
}

Ring-joined : Ring joined.contexts 4 (16 ∷ 12 ∷ 8 ∷ [])
Ring-joined = record {
  base = (ground arith, refl, refl);
  chain =
      ((ground arith, refl, refl), ((ground arith, refl, refl), ((ground arith, refl, refl), tt)));
  distinct = (refl, (refl, (refl, (refl, tt))));
}

push_context_example :
    (h : Ptr → Option (Context (Unit {0}))) × (push_context 4 12 apart ≡ ok tt (relink apart h))
    × Ring h 4 (16 ∷ 12 ∷ 8 ∷ [])
    × OnlyLinks (12 ∷ 8 ∷ 4 ∷ []) apart.contexts h
push_context_example =
    push_context_lem apart 4 12 (8 ∷ []) (16 ∷ []) Ring-running Ring-waiting
      (refl, (refl, (refl, (refl, tt))))

pop_context_example :
    (h : Ptr → Option (Context (Unit {0}))) × (pop_context 4 12 joined ≡ ok 8 (relink joined h))
    × Ring h 4 (8 ∷ [])
    × Ring h 12 (16 ∷ [])
    × OnlyLinks (12 ∷ 8 ∷ 4 ∷ []) joined.contexts h
pop_context_example = pop_context_lem joined 4 12 (8 ∷ []) (16 ∷ []) Ring-joined

pop_push_example : (pop_context 4 12 >> push_context 4 12) joined ≡ ok tt joined
pop_push_example = push_context-pop_context joined 4 12 (8 ∷ []) (16 ∷ []) Ring-joined

co_ctx_example : co_ctx 9 4 joined ≡ ok (some (some 12)) joined
co_ctx_example = co_ctx_lem joined 4 (16 ∷ 12 ∷ 8 ∷ []) 9 Ring-joined (ground arith)

guard_current_example : guard_current 4096 4 joined ≡ ok (4096, 12000) joined
guard_current_example =
    guard_current_lem joined 4 16 (12 ∷ 8 ∷ []) 4096 (linked 4 12 0) Ring-joined refl

abbrev cell : Slot
cell = record { ty = 1; value = none }

para_example :
    ((true ≡ true)
      → ((co_set_para 1 5 8 >> get_para 1 8) apart
          ≡ ok (some 5) (with_para apart (linked 4 0 0) cell none))
        × ((co_set_para 1 5 8 >> co_get_para 1 8) apart
            ≡ ok (some 5) (with_para apart (linked 4 0 0) cell none))
        × (get_para 1 8 (with_para apart (linked 4 0 0) cell none)
            ≡ ok none (with_para apart (linked 4 0 0) cell none)))
    × ((true ≡ false)
        → (get_para 1 8 apart ≡ panic (error type_err) apart)
          × (co_get_para 1 8 apart ≡ fault)
          × (co_set_para 1 5 8 apart ≡ fault))
para_example = para_lem apart 8 (linked 4 0 0) cell 1 (ground arith) refl 5 (ground arith) refl
