-- ===== src/Gen/Outside.antt =====
-- The calls of src/yield_.rs on a thread that runs no generator.
use generator_rs.Base.{ℕ, ◌≡◌, ◌≢◌, ◌<◌, refl, false, none, some, [], update, arith, ==_refl}
use generator_rs.Panic.{
  Payload, ok, panic, error, text, context_err, none_generator_context, done_outside, unwrap_none,
}
use generator_rs.Rt.Context.{TypeId, null, new}
use generator_rs.Rt.Env
use generator_rs.Rt.Env.{current, init_root}
use generator_rs.Rt.Ring.{Ring}
use generator_rs.Rt.Links
use generator_rs.Rt.Search.{co_ctx_lem, is_generator_lem}
use generator_rs.Gen.Types.{Reply, value, Op, World, reply, zeroed}
use generator_rs.Gen.Impl.{env}
use generator_rs.Gen.Yield
use generator_rs.Gen.Yield.{
  top_context, check_context, raw_yield, yield_then, raw_get_yield, get_yield, done, coroutine,
  co_yield_with, co_yield_at, co_get_yield,
}
use generator_rs.Gen.Machine.{exec}
use generator_rs.Gen.Views.{env-ok, top-ok, load-ok, on_mem-ok}

module _ {S : Type 0} where
  -- The thread with its root context allocated.
  abbrev pub begun : World S → World S
  begun w = record w {
    mem = record (w.mem) {
      root = w.root_box;
      contexts =
          update w.mem.contexts w.root_box (some (record (new zeroed) { parent = w.root_box }));
    };
  }

  -- A thread that runs no generator, and what it is once it has a root context: it has one already, or
  -- it has not called the crate yet.
  pub data IsIdle (w : World S) : World S → Type 0 where
    used : Ring w.mem.contexts w.mem.root [] → IsIdle w w
    unused : w.mem.root ≡ null → w.root_box ≢ null → IsIdle w (begun w)

  pub env-IsIdle : {w w' : World S} → IsIdle w w' → env w ≡ ok w'.mem.root w'
  unfolding env current init_root
  env-IsIdle {w = w} (used ring) = env-ok w ring.base.0
  env-IsIdle {w = w} (unused e ne) = rw e refl

  pub IsIdle-Ring : {w w' : World S} → IsIdle w w' → Ring w'.mem.contexts w'.mem.root []
  IsIdle-Ring (used ring) = ring
  IsIdle-Ring {w = w} (unused e ne) = record {
    base = (ne, ground arith, ground arith);
    chain = tt;
    distinct = (refl, tt);
  }

module _ {S : Type 0} (w w' : World S) (idle : IsIdle w w') (fuel : 0 < w.fuel) where
  ring : Ring w'.mem.contexts w'.mem.root []
  ring = IsIdle-Ring idle

  top-root : top_context w ≡ ok w'.mem.root w'
  unfolding top_context
  top-root = rw (env-IsIdle idle, top_context, top-ok w' [] ring)

  refused : (e : Payload) → check_context w'.mem.root e w' ≡ panic e w'
  unfolding check_context
  refused e =
      let (r, l, er, p) = Links.load-ok w'.mem.root w'.mem ring.base.0 ring.base.1 in
      rw (load-ok w' w'.mem.root r ring.base.0 er, p, ==_refl w'.mem.root)

  not_inside : Yield.is_generator w ≡ ok false w'
  unfolding Yield.is_generator
  not_inside =
      let (_, _, b, _, _, _, q, iff) = is_generator_lem w'.mem w'.mem.root [] ring in
      rw (
        env-IsIdle idle,
        Yield.is_generator,
        on_mem-ok (Env.is_generator w'.mem.root) w' q,
        iff.1 refl,
      )

  no_coroutine : coroutine w ≡ ok none w'
  unfolding coroutine
  no_coroutine = rw (
    env-IsIdle idle,
    coroutine,
    on_mem-ok (Env.co_ctx w.fuel w'.mem.root) w'
        (co_ctx_lem w'.mem w'.mem.root [] w.fuel ring fuel),
  )

  -- On a thread that runs no generator, with fuel, whether it has used the crate before or not:
  -- yield_with and yield_ panic, get_yield panics with ContextErr, done and co_yield_with panic,
  -- is_generator is false, co_get_yield answers none, co_set_para does nothing; each leaves the
  -- thread as it was, but with a root context if it had none.
  pub outside_lem :
      (a t : TypeId) (v : ℕ)
      → (exec (Op.yield_with t v) w ≡ panic (text none_generator_context) w')
        × (exec (Op.yield_ a t v) w ≡ panic (text none_generator_context) w')
        × (exec (Op.get_yield a) w ≡ panic (error context_err) w')
        × (exec Op.done w ≡ panic (text done_outside) w')
        × (exec Op.is_generator w ≡ ok (reply (Reply.bool false)) w')
        × (exec (Op.co_yield_with t v) w ≡ panic (text unwrap_none) w')
        × (exec (Op.co_get_yield a) w ≡ ok (reply (value none)) w')
        × (exec (Op.co_set_para a v) w ≡ ok (reply Reply.unit) w')
  unfolding exec yield_then raw_yield get_yield raw_get_yield done co_yield_with co_yield_at
      co_get_yield Yield.co_set_para
  outside_lem a t v = (
    rw (top-root, raw_yield, refused (text none_generator_context)),
    rw (top-root, raw_yield, refused (text none_generator_context)),
    rw (top-root, raw_get_yield, refused (error context_err)),
    rw not_inside,
    rw not_inside,
    rw no_coroutine,
    rw no_coroutine,
    rw no_coroutine,
  )
