-- ===== src/Routing/Resolve/Collecting.antt =====
-- What collecting one model, and then a list of models, does to the answer and to the table.
-- What a step of the collection does: the answer grows by allowed deployments of some models, to
-- the same keys as all of these have, and the table keeps its deployments.
use sovereign_gateway.Base.{
  String, ◌≡◌, refl, sym, ap, ◌∙◌, inl, inr, Bool, ◌||◌, none, some, List, [], ◌∷◌, ◌++◌, arith,
  Bool-cases, Option-cases, All, is_nil, select, any, any-append, any-perm, All-append_iff,
  All-perm,
}
use sovereign_gateway.Core.Deployments.{Deployment, RouteRequest}
use sovereign_gateway.Routing.Resolve.{
  Progress, Key, push_new, collect, collect_all, collect_entry, same_key, is_allowed, key,
}
use sovereign_gateway.Routing.Order.{Floats}
use sovereign_gateway.Routing.Resolve.Ordered.{
  SameTable, allowed_of, deployments_of, survivors, collect_entry_nil, collect_entry_some, advanced,
  ordered, advanced-SameTable, ordered-perm,
}
use sovereign_gateway.Routing.Table.{Strategy, ModelEntry}
use sovereign_gateway.Routing.Resolve.Entries.{
  Sound, has_key, push_new-Grows, has_key-push_new, push_new-Sound,
}
use mathlib.Core.List.{Perm, append-nil, append_assoc}
use sovereign_gateway.Base.Assoc.{lookup}
use mathlib.Core.HLevel.{Unit-prop}
use mathlib.Core.Path.{ap₂, subst}

pub record Collects (source : List Deployment) (p q : Progress) : Type 1 where
  pub same_table : SameTable q.models p.models
  pub grows : (new : List Deployment) × (q.out ≡ p.out ++ new)
  pub keys :
      Sound (λ _. Unit {0}) p → (k : Key) → has_key k q.out ≡ has_key k p.out || has_key k source
  pub sound :
      (P : Deployment → Type 0)
      → ((d : Deployment) → IsProp (P d))
      → All P source
      → Sound P p
      → Sound P q

Collects-nil : (p : Progress) → Collects [] p p
unfolding any
Collects-nil p = record {
  same_table = λ m. refl;
  grows = ([], sym (append-nil p.out));
  keys = λ s k. ground arith;
  sound = λ P prop h s. s;
}

Sound-moved :
    (P : Deployment → Type 0) (p q : Progress)
    → q.out ≡ p.out
    → q.seen ≡ p.seen
    → Sound P p
    → Sound P q
Sound-moved P p q o s h = record {
  tracks = λ k. rw (s, o) (h.tracks k);
  distinct = rw o h.distinct;
  all = rw o h.all;
}

Collects-push_new :
    (p q : Progress) (ds source : List Deployment)
    → SameTable q.models p.models
    → q.out ≡ p.out
    → q.seen ≡ p.seen
    → Perm ds source
    → Collects source p (push_new ds q)
Collects-push_new p q ds source t o s perm =
    let (m, r, (new, e)) = push_new-Grows ds q in
    record {
      same_table = λ model. ap (λ ms. deployments_of model ms) m ∙ t model;
      grows = (new, e ∙ ap (λ l. l ++ new) o);
      keys = λ h k.
          has_key-push_new k ds q (Sound-moved _ p q o s h)
          ∙ ap₂ ◌||◌ (ap (has_key k) o) (any-perm (λ d. same_key (key d) k) perm);
      sound = λ P prop h before.
          push_new-Sound P ds q (All-perm P prop perm h) (Sound-moved P p q o s before);
    }

or_assoc : (a b c : Bool) → (a || b) || c ≡ a || (b || c)
or_assoc a b c = ground arith

unit-All : (ds : List Deployment) → All (λ _. Unit {0}) ds
unit-All [] = tt
unit-All (d ∷ ds) = (tt, unit-All ds)

Collects-trans :
    (p q r : Progress) (xs ys : List Deployment)
    → Collects xs p q
    → Collects ys q r
    → Collects (xs ++ ys) p r
Collects-trans p q r xs ys c d = record {
  same_table = λ m. d.same_table m ∙ c.same_table m;
  grows = (
    c.grows.0 ++ d.grows.0,
    d.grows.1 ∙ (ap (λ l. l ++ d.grows.0) c.grows.1 ∙ append_assoc p.out c.grows.0 d.grows.0),
  );
  keys = λ h k.
      d.keys (c.sound (λ _. Unit {0}) (λ _. Unit-prop) (unit-All xs) h) k
      ∙ (ap (λ b. b || has_key k ys) (c.keys h k)
          ∙ (or_assoc (has_key k p.out) (has_key k xs) (has_key k ys)
              ∙ ap (λ b. has_key k p.out || b) (sym (any-append (λ e. same_key (key e) k) xs ys))));
  sound = λ P prop h before.
      let (hx, hy) = All-append_iff P xs ys h in d.sound P prop hy (c.sound P prop hx before);
}

-- What a request may use of some models, in their order.
abbrev pub allowed_of_all :
    RouteRequest → List (String × ModelEntry) → List String → List Deployment
allowed_of_all req models [] = []
allowed_of_all req models (m ∷ ms) = allowed_of req models m ++ allowed_of_all req models ms

allowed_of_all-SameTable :
    (req : RouteRequest) (ms ns : List (String × ModelEntry)) (names : List String)
    → SameTable ms ns
    → allowed_of_all req ms names ≡ allowed_of_all req ns names
allowed_of_all-SameTable req ms ns [] h = refl
allowed_of_all-SameTable req ms ns (m ∷ names) h =
    ap₂ ◌++◌ (ap (select (is_allowed req)) (h m)) (allowed_of_all-SameTable req ms ns names h)

module _ (f : Floats) (st : Strategy) (req : RouteRequest) where
  Collects-collect_entry :
      (model : String) (entry : ModelEntry) (p : Progress)
      → lookup model p.models ≡ some entry
      → Collects
          (select (is_allowed req) entry.deployments)
          p
          (collect_entry f st req model entry p)
  Collects-collect_entry model entry p h = elim (Bool-cases (is_nil (survivors f st req entry p))) [
    | inl e ↦
        let (same, none_allowed) = collect_entry_nil f st req entry p model e in
        rw (same, none_allowed) (Collects-nil p)
    | inr e ↦ rw (collect_entry_some f st req entry p model e) (
        Collects-push_new p (advanced f st req entry p model) (ordered f st req entry p)
          (select (is_allowed req) entry.deployments)
          (advanced-SameTable f st req entry p model e h) (unfold advanced in refl)
          (unfold advanced in refl) (ordered-perm f st req entry p e))
  ]

  collect-none :
      (model : String) (p : Progress) → lookup model p.models ≡ none → collect f st req model p ≡ p
  unfolding collect
  collect-none model p e = ground arith

  collect-some :
      (model : String) (entry : ModelEntry) (p : Progress)
      → lookup model p.models ≡ some entry
      → collect f st req model p ≡ collect_entry f st req model entry p
  unfolding collect
  collect-some model entry p e = ground arith

  pub Collects-collect :
      (model : String) (p : Progress)
      → Collects (allowed_of req p.models model) p (collect f st req model p)
  Collects-collect model p = elim (Option-cases (lookup model p.models)) [
    | inl e ↦ rw (e, collect-none model p e) (unfold select in Collects-nil p)
    | inr (entry, e) ↦ rw (e, collect-some model entry p e) (Collects-collect_entry model entry p e)
  ]

  -- Collecting some models adds what the request may use of them.
  pub Collects-collect_all :
      (names : List String) (p : Progress)
      → Collects (allowed_of_all req p.models names) p (collect_all f st req names p)
  unfolding collect_all
  Collects-collect_all [] p = Collects-nil p
  Collects-collect_all (m ∷ names) p =
      let q = collect f st req m p in
      let c = Collects-collect m p in
      Collects-trans p q (collect_all f st req names q) (allowed_of req p.models m)
        (allowed_of_all req p.models names) c
        (subst (λ source. Collects source q (collect_all f st req names q))
          (allowed_of_all-SameTable req q.models p.models names c.same_table)
          (Collects-collect_all names q))
