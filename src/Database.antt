-- ===== src/Database.antt =====
-- app/database.py: the engine and the session factory of the process, which are made at their first use.
-- An engine is the number of engines that were made before it.
mod Scenarios
use b24_sinedis.Prelude.{
  ℕ, zero, suc, ◌+◌, ◌<◌, Bool, true, false, any, ◌==◌, comparable_ids, some-eq, ◌≡◌, refl, ◌≢◌,
  Option, none, some, List, [], ◌∷◌, length, arith, All, All-imp, ◌⊎◌, inl, inr,
}

pub record Database : Type 0 where
  pub engine : Option ℕ
  -- the engine that the session factory is bound to
  pub session_factory : Option ℕ
  pub engines : ℕ
  pub disposed : List ℕ

abbrev pub unused : Database
unused = record { engine = none; session_factory = none; engines = 0; disposed = [] }

abbrev engine_of : Option ℕ → Database → ℕ × Database
engine_of (some e) d = (e, d)
engine_of none d = (d.engines, record d { engine = some d.engines; engines = suc d.engines })

unfoldable pub get_database_engine : Database → ℕ × Database
get_database_engine d = engine_of d.engine d

abbrev factory_of : Option ℕ → Database → ℕ × Database
factory_of (some e) d = (e, d)
factory_of none d =
    let (e, d') = get_database_engine d in (e, record d' { session_factory = some e })

unfoldable pub get_session_factory : Database → ℕ × Database
unfolding get_database_engine
get_session_factory d = factory_of d.session_factory d

abbrev with_disposed : Option ℕ → List ℕ → List ℕ
with_disposed none es = es
with_disposed (some e) es = e ∷ es

-- The state is reset before the engine closes its connections.
unfoldable pub dispose_database_engine : Database → Database
dispose_database_engine d = record {
  engine = none;
  session_factory = none;
  engines = d.engines;
  disposed = with_disposed d.engine d.disposed;
}

pub data Call : Type 0 where
  uses_engine uses_session disposes : Call

unfoldable pub perform : Call → Database → Database
unfolding get_database_engine get_session_factory dispose_database_engine
perform uses_engine d = (get_database_engine d).1
perform uses_session d = (get_session_factory d).1
perform disposes d = dispose_database_engine d

unfoldable pub perform_all : List Call → Database → Database
unfolding perform
perform_all [] d = d
perform_all (c ∷ cs) d = perform_all cs (perform c d)

abbrev open_engines : Option ℕ → ℕ
open_engines none = 0
open_engines (some e) = 1

-- an engine that is made and not disposed
abbrev IsOpen : Database → ℕ → Type 0
IsOpen d e = (e < d.engines) × All (λ f. f ≢ e) d.disposed

abbrev IsOpenEngine : Database → Option ℕ → Type 0
IsOpenEngine d none = Unit
IsOpenEngine d (some e) = IsOpen d e

abbrev IsBound : Option ℕ → Option ℕ → Type 0
IsBound factory engine = (factory ≡ none) ⊎ (factory ≡ engine)

abbrev is_disposed : ℕ → List ℕ → Bool
is_disposed e = any (λ f. f == e)

-- Each engine below n is disposed or the current one.
abbrev AllKept : Option ℕ → List ℕ → ℕ → Type 0
AllKept engine disposed zero = Unit
AllKept engine disposed (suc n) =
    ((is_disposed n disposed ≡ true) ⊎ (engine ≡ some n)) × AllKept engine disposed n

abbrev AreDistinct : List ℕ → Type 0
AreDistinct [] = Unit
AreDistinct (e ∷ es) = (is_disposed e es ≡ false) × AreDistinct es

-- No engine is lost or disposed twice, and what is in use is open.
pub record IsTidy (d : Database) : Type 0 where
  pub kept : AllKept d.engine d.disposed d.engines
  pub once : AreDistinct d.disposed
  pub counted : d.engines ≡ length d.disposed + open_engines d.engine
  pub bound : IsBound d.session_factory d.engine
  pub current : IsOpenEngine d d.engine
  pub closed : All (λ f. f < d.engines) d.disposed

abbrev state : Option ℕ → Option ℕ → ℕ → List ℕ → Database
state e f n ds = record { engine = e; session_factory = f; engines = n; disposed = ds }

below_ne : {k n : ℕ} → k < n → k ≢ n
below_ne b = λ e. omega (arith, b, e)

kept_none : (e : Option ℕ) (ds : List ℕ) (n : ℕ) → AllKept none ds n → AllKept e ds n
kept_none e ds zero h = tt
kept_none e ds (suc n) h =
    (elim h.0 [ inl a ↦ inl a | inr a ↦ absurd (cc a) ], kept_none e ds n h.1)

-- The current engine is disposed.
kept_disposed : (e : ℕ) (ds : List ℕ) (n : ℕ) → AllKept (some e) ds n → AllKept none (e ∷ ds) n
kept_disposed e ds zero h = tt
kept_disposed e ds (suc n) h = (
  elim h.0 [
    | inl a ↦ inl (ground (arith, a))
    | inr a ↦ let same : e ≡ n = some-eq a in inl (ground (arith, same))
  ],
  kept_disposed e ds n h.1,
)

not_disposed : (e : ℕ) (ds : List ℕ) → All (λ f. f ≢ e) ds → is_disposed e ds ≡ false
not_disposed e [] h = refl
not_disposed e (d ∷ ds) h = ground (arith, h.0, not_disposed e ds h.1)

engine-IsTidy :
    (e f : Option ℕ) (n : ℕ) (ds : List ℕ)
    → IsTidy (state e f n ds)
    → IsTidy (engine_of e (state e f n ds)).1
engine-IsTidy (some e) f n ds h = h
engine-IsTidy none f n ds h =
    let unbound : f ≡ none = elim h.bound [ inl a ↦ a | inr a ↦ a ] in
    record {
      kept = (inr refl, kept_none (some n) ds n h.kept);
      once = h.once;
      counted = omega (arith, h.counted);
      bound = inl unbound;
      current = (omega arith, All-imp _ _ (λ k b. below_ne b) ds h.closed);
      closed = All-imp _ _ (λ k b. omega (arith, b)) ds h.closed;
    }

bind-IsTidy :
    (e n : ℕ) (f : Option ℕ) (ds : List ℕ)
    → IsTidy (state (some e) f n ds)
    → IsTidy (state (some e) (some e) n ds)
bind-IsTidy e n f ds h = record {
  kept = h.kept;
  once = h.once;
  counted = h.counted;
  bound = inr refl;
  current = h.current;
  closed = h.closed;
}

factory-IsTidy :
    (e f : Option ℕ) (n : ℕ) (ds : List ℕ)
    → IsTidy (state e f n ds)
    → IsTidy (factory_of f (state e f n ds)).1
unfolding get_database_engine
factory-IsTidy e (some f) n ds h = h
factory-IsTidy (some e) none n ds h = bind-IsTidy e n none ds h
factory-IsTidy none none n ds h = bind-IsTidy n (suc n) none ds (engine-IsTidy none none n ds h)

dispose-IsTidy :
    (e f : Option ℕ) (n : ℕ) (ds : List ℕ)
    → IsTidy (state e f n ds)
    → IsTidy (dispose_database_engine (state e f n ds))
unfolding dispose_database_engine
dispose-IsTidy none f n ds h = record {
  kept = h.kept;
  once = h.once;
  counted = h.counted;
  bound = inl refl;
  current = tt;
  closed = h.closed;
}
dispose-IsTidy (some e) f n ds h = record {
  kept = kept_disposed e ds n h.kept;
  once = (not_disposed e ds h.current.1, h.once);
  counted = omega (arith, h.counted);
  bound = inl refl;
  current = tt;
  closed = (h.current.0, h.closed);
}

perform-IsTidy : (c : Call) (d : Database) → IsTidy d → IsTidy (perform c d)
unfolding perform get_database_engine get_session_factory
perform-IsTidy uses_engine d h = engine-IsTidy d.engine d.session_factory d.engines d.disposed h
perform-IsTidy uses_session d h = factory-IsTidy d.engine d.session_factory d.engines d.disposed h
perform-IsTidy disposes d h = dispose-IsTidy d.engine d.session_factory d.engines d.disposed h

IsTidy-from : (cs : List Call) (d : Database) → IsTidy d → IsTidy (perform_all cs d)
unfolding perform_all
IsTidy-from [] d h = h
IsTidy-from (c ∷ cs) d h = IsTidy-from cs (perform c d) (perform-IsTidy c d h)

-- Whatever the uses and the disposals, and in any order: every engine that was made is disposed or the
-- current one, none is disposed twice, and the session factory of the process is absent or bound to the
-- current engine, which is open.
pub perform_all-IsTidy : (cs : List Call) → IsTidy (perform_all cs unused)
perform_all-IsTidy cs =
    IsTidy-from cs unused
      (record { kept = tt; once = tt; counted = refl; bound = inl refl; current = tt; closed = tt })
