-- ===== src/Race/Session/Writing.antt =====
-- The writes of a session: they all answer, and the last pair of a key is its value.
use mathlib.Core.Option.{some-injective}
use mathlib.Core.Path.{subst}
use native.Mathlib.Decide.{ℕ_discrete}
use nvm_kv.Prelude.{
  ℕ, suc, ◌+◌, ◌≤◌, ◌≡◌, refl, sym, ap, ◌∙◌, arith, List, [], ◌∷◌, ◌++◌, some, length, get_elem?,
  set, get_elem?-some_lt, get_elem?-set_self, get_elem?-set_ne, length-set, length-append, Bytes,
}
use nvm_kv.Posix.{Io, NoFailure, transfers}
use nvm_kv.Engine.{ok}
use nvm_kv.Race.Bucket.{Bucket}
use nvm_kv.Race.Live
use nvm_kv.Race.Live.Writing.{written, written-IsValid}
use nvm_kv.Race.Log.Appending.{new_location, written-IsLogged}
use nvm_kv.Race.Routing.{EngineRace, put_bucket}
use nvm_kv.Race.Store.{home, view, IsValid, HasRoom}
use nvm_kv.Race.Store.Operations.{write-Puts}
use nvm_kv.Race.Session.{Pairs, write_all, after, Fits, AllFit, volume, Takes, IsReady}

Takes-HasRoom :
    (n : ℕ) (f : Bucket) (key value : Bytes)
    → Takes (suc n) f
    → Fits key value
    → Live.HasRoom f key value
Takes-HasRoom n f key value t fits = record {
  buffer = fits.buffer;
  index = omega (arith, t.index, fits.buffer);
  readable = fits.readable;
  counter = omega (arith, t.counter, fits.readable);
}

-- With each write there is one pair less to take.
written-Takes :
    (n : ℕ) (f : Bucket) (key value : Bytes)
    → Takes (suc n) f
    → Fits key value
    → Takes n (written f key value)
unfolding written
written-Takes n f key value t fits =
    let room = Takes-HasRoom n f key value t fits in
    record {
      valid = written-IsValid f t.valid key value room;
      log = t.log ++ (key, new_location f value) ∷ [];
      logged = written-IsLogged t.log f key value t.valid t.logged room fits.nonempty;
      index = omega (arith, t.index, fits.buffer);
      counter = omega (arith, t.counter, fits.readable, length-append {0} f.data_file value);
    }

fewer : (n : ℕ) (f : Bucket) → Takes (suc n) f → Takes n f
fewer n f t = record {
  valid = t.valid;
  log = t.log;
  logged = t.logged;
  index = omega (arith, t.index);
  counter = omega (arith, t.counter);
}

module _ (n i : ℕ) (e : EngineRace) (f : Bucket) (key value : Bytes) (ready : IsReady (suc n) e)
    (there : get_elem? e.buckets i ≡ some f) (fits : Fits key value) where
  put_bucket-IsReady : IsReady n (put_bucket e i (written f key value))
  unfolding put_bucket
  put_bucket-IsReady = record {
    several = rw (length-set e.buckets i (written f key value)) ready.several;
    each = λ j g h. elim (ℕ_discrete i j) [
      | yes here ↦
          let self =
            get_elem?-set_self e.buckets i (written f key value)
              (get_elem?-some_lt e.buckets i there) in
          subst (Takes n)
            (some-injective _ _
              (sym self ∙ ap (get_elem? (set e.buckets i (written f key value))) here ∙ h))
            (written-Takes n f key value (ready.each i f there) fits)
      | no away ↦
          fewer n g
            (ready.each j g (sym (get_elem?-set_ne e.buckets i j (written f key value) away) ∙ h))
    ];
  }

pub IsReady-IsValid : (n : ℕ) (e : EngineRace) → IsReady n e → IsValid e
IsReady-IsValid n e ready = record {
  several = ready.several;
  each = λ i f h. (ready.each i f h).valid;
}

IsReady-HasRoom :
    (n : ℕ) (e : EngineRace) (key value : Bytes)
    → IsReady (suc n) e
    → Fits key value
    → HasRoom e key value
IsReady-HasRoom n e key value ready fits = record {
  room = λ f h. Takes-HasRoom n f key value (ready.each _ f h) fits;
}

-- All the writes answer, and the engine can take `n` pairs more.
pub record Wrote (n : ℕ) (io : List Io) (e : EngineRace) (pairs : Pairs) : Type 0 where
  pub engine : EngineRace
  pub left : List Io
  pub run : write_all io e pairs ≡ ok (engine, left)
  pub ready : IsReady n engine
  pub size : length engine.buckets ≡ length e.buckets
  pub views : (j : Bytes) → view engine j ≡ after pairs j (view e j)

pub write_all-Wrote :
    (pairs : Pairs) (n : ℕ) (io : List Io) (e : EngineRace)
    → IsReady (length pairs + n) e
    → AllFit pairs
    → NoFailure io
    → volume pairs ≤ transfers io
    → Wrote n io e pairs
unfolding write_all
write_all-Wrote [] n io e ready fit good enough =
    let none_left : 0 + n ≡ n = omega arith in
    record {
      engine = e;
      left = io;
      run = refl;
      ready = subst (λ m. IsReady m e) none_left ready;
      size = refl;
      views = λ j. refl;
    }
write_all-Wrote ((key, value) ∷ pairs) n io e ready (fits, fit) good enough =
    let one_more : suc (length pairs) + n ≡ suc (length pairs + n) = omega arith in
    let ready' = subst (λ m. IsReady m e) one_more ready in
    let w =
      write-Puts io e key value (IsReady-IsValid _ e ready') fits.byte
        (IsReady-HasRoom (length pairs + n) e key value ready' fits) good (omega arith) in
    let e' = put_bucket e (home (length e.buckets) key) (written w.bucket key value) in
    let rest =
      write_all-Wrote pairs n w.left e'
        (put_bucket-IsReady (length pairs + n) (home (length e.buckets) key) e w.bucket key value
          ready' w.there fits)
        fit w.no_failure (omega (arith, w.spent)) in
    record {
      engine = rest.engine;
      left = rest.left;
      run = rw w.run rest.run;
      ready = rest.ready;
      size =
          rest.size
          ∙ (unfold put_bucket in
              length-set e.buckets (home (length e.buckets) key) (written w.bucket key value));
      views = λ j. rest.views j ∙ ap (after pairs j) (w.views j);
    }
