-- ===== src/Router/Lazy.antt =====
-- `runLoad` and `LazyHandler.ServeHTTP` of internal/router/lazy.go.
use peretum.Prelude.{Bool, true, Option, none, some, if◌then◌else◌}

-- How a load ends: a handler, possibly nil, with or without an error, or a panic.
pub data Load (V : Type 0) : Type 0 where
  returns : Option V → Bool → Load V
  panics : Load V

pub data LazyReply (V : Type 0) : Type 0 where
  served : V → LazyReply V
  canceled unavailable : LazyReply V

module _ {V : Type 0} where
  -- The handler, and whether there is an error.
  unfoldable pub run_load : Load V → Option V × Bool
  run_load (returns tch failed) = (tch, failed)
  run_load panics = (none, true)

  abbrev pub without_handler : Bool → LazyReply V
  without_handler done = if done then canceled else unavailable

  abbrev pub materialized : Bool → Option V × Bool → LazyReply V
  materialized done (none, failed) = without_handler done
  materialized done (some tch, failed) =
      if failed then without_handler done else if done then canceled else served tch

  -- The resident handler, else what `materialize` gives; `done` says whether the request's context
  -- has ended by then.
  unfoldable pub serve_lazy : Option V → Option V × Bool → Bool → LazyReply V
  serve_lazy (some tch) result done = served tch
  serve_lazy none result done = materialized done result
