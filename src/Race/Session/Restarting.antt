-- ===== src/Race/Session/Restarting.antt =====
-- `Open` on an empty directory, and on the files that a session left.
use nvm_kv.Prelude.{
  ℕ, zero, suc, ◌+◌, ◌≡◌, refl, sym, ap, ◌∙◌, arith, List, [], ◌∷◌, none, some, true, length,
  get_elem?, get_elem?-lt, get_elem?-some_lt, Bytes, Option-cases, inl, inr, map as list_map,
}
use mathlib.Core.Option.{some-injective}
use mathlib.Core.Path.{subst}
use nvm_kv.Engine.{succ, ok}
use nvm_kv.Race.Bucket.{Bucket}
use nvm_kv.Race.Opening.{Files, Calls, files_of}
use nvm_kv.Race.Log.Reopening.{
  Works, reopened, open_bucket-files_of, view-reopened, reopened-IsValid, reopened-IsLogged,
}
use nvm_kv.Race.Routing.{EngineRace, open_buckets, open_engine, close}
use nvm_kv.Race.Store.{home, view}
use nvm_kv.Race.Session.{Takes, IsReady}

-- The files of the buckets, each with what the calls of `Open` on it answer.
abbrev pub called : (ℕ → Calls) → ℕ → List Files → List (Calls × Files)
called calls i [] = []
called calls i (files ∷ dir) = (calls i, files) ∷ called calls (i + 1) dir

reopened-Takes : (n : ℕ) (f : Bucket) → Takes n f → Takes n (reopened f)
reopened-Takes n f t = record {
  valid = reopened-IsValid f t.valid;
  log = t.log;
  logged = reopened-IsLogged t.log f t.logged;
  index = t.index;
  counter = t.counter;
}

open_buckets-files_of :
    (calls : ℕ → Calls) (n i : ℕ) (bs : List Bucket)
    → ((j : ℕ) → Works (calls j))
    → ((j : ℕ) (f : Bucket) → get_elem? bs j ≡ some f → Takes n f)
    → open_buckets (called calls i (list_map files_of bs))
      ≡ ok (succ, list_map reopened bs, list_map files_of bs)
unfolding open_buckets
open_buckets-files_of calls n i [] works takes = refl
open_buckets-files_of calls n i (f ∷ bs) works takes =
    let t = takes zero f refl in
    rw (
      open_bucket-files_of (calls i) t.log f (works i) t.valid t.logged (omega (arith, t.index)),
      open_buckets-files_of calls n (i + 1) bs works (λ j g h. takes (suc j) g h),
    )

get_elem?-map :
    (g : Bucket → Bucket) (bs : List Bucket) (i : ℕ) (f : Bucket)
    → get_elem? bs i ≡ some f
    → get_elem? (list_map g bs) i ≡ some (g f)
get_elem?-map g [] i f h = cc
get_elem?-map g (x ∷ bs) zero f h = ap (λ (y : Bucket). some (g y)) (some-injective _ _ h)
get_elem?-map g (x ∷ bs) (suc i) f h = get_elem?-map g bs i f h

get_elem?-map_none :
    (g : Bucket → Bucket) (bs : List Bucket) (i : ℕ)
    → get_elem? bs i ≡ none
    → get_elem? (list_map g bs) i ≡ none
get_elem?-map_none g [] i h = refl
get_elem?-map_none g (x ∷ bs) zero h = cc
get_elem?-map_none g (x ∷ bs) (suc i) h = get_elem?-map_none g bs i h

length-map_buckets : (g : Bucket → Bucket) (bs : List Bucket) → length (list_map g bs) ≡ length bs
length-map_buckets g [] = refl
length-map_buckets g (x ∷ bs) = ap suc (length-map_buckets g bs)

-- The engine that `Open` sets up from the files of `e`.
abbrev pub engine_again : Bytes → EngineRace → EngineRace
engine_again name e = record { dir_name = name; buckets = list_map reopened e.buckets }

pub open_engine-close :
    (calls : ℕ → Calls) (n : ℕ) (name : Bytes) (e : EngineRace)
    → ((j : ℕ) → Works (calls j))
    → IsReady n e
    → open_engine true name (called calls 0 (close e))
      ≡ ok (succ, some (engine_again name e), close e)
unfolding open_engine close
open_engine-close calls n name e works ready =
    rw (open_buckets-files_of calls n 0 e.buckets works ready.each)

pub engine_again-IsReady :
    (n : ℕ) (name : Bytes) (e : EngineRace) → IsReady n e → IsReady n (engine_again name e)
engine_again-IsReady n name e ready = record {
  several = omega (arith, ready.several, length-map_buckets reopened e.buckets);
  each = λ i f' h.
      let (f, there) = get_elem?-lt e.buckets i (
        omega (
          arith,
          get_elem?-some_lt (list_map reopened e.buckets) i h,
          length-map_buckets reopened e.buckets,
        )) in
      subst (Takes n) (some-injective _ _ (sym (get_elem?-map reopened e.buckets i f there) ∙ h))
        (reopened-Takes n f (ready.each i f there));
}

pub view-engine_again :
    (name : Bytes) (e : EngineRace) (key : Bytes) → view (engine_again name e) key ≡ view e key
unfolding view
view-engine_again name e key =
    let i : ℕ = home (length e.buckets) key in
    elim (Option-cases (get_elem? e.buckets (home (length e.buckets) key))) [
      | inl out ↦
          rw (
            length-map_buckets reopened e.buckets,
            out,
            get_elem?-map_none reopened e.buckets i out,
          )
      | inr (f, there) ↦
          rw
            (
              length-map_buckets reopened e.buckets,
              there,
              get_elem?-map reopened e.buckets i f there,
            )
            (view-reopened f key)
    ]
