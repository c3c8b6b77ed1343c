-- ===== src/Service/Replies.antt =====
-- What the service replies from the memory and from the cores.
use gaia_server.Base.{
  zero, suc, ◌-◌, ℕ, String, ◌≡◌, refl, sym, ap, ◌∙◌, false, List, [], ◌∷◌, ◌++◌, map, length,
  if◌then◌else◌, leb, arith, Result-cases, ok, err, ◌==◌, append_assoc, append-nil, ◌⊎◌, inl, inr,
}
use gaia_server.Base.Numbers.{ℤ, pos, negsuc}
use gaia_server.Base.Slices.{take, slice_last, take-drop, length-drop}
use gaia_server.Dict
use gaia_server.Dict.{Dict}
use gaia_server.Errors.{Exn}
use gaia_server.Service.{Core, Substrate, sliced, memory_replay, tick_all, core_health}

-- How many of `m` events a replay with this limit has.
abbrev pub replayed : ℤ → ℕ → ℕ
replayed (pos zero) m = m
replayed (pos (suc n)) m = if leb m (suc n) then m else suc n
replayed (negsuc n) m = m - suc n

slice_last-suffix :
    {A : Type 0} (limit : ℤ) (xs : List A)
    → (earlier : List A) × (earlier ++ slice_last limit xs ≡ xs)
      × (length (slice_last limit xs) ≡ replayed limit (length xs))
unfolding slice_last
slice_last-suffix (pos zero) xs = ([], refl, refl)
slice_last-suffix (pos (suc n)) xs = (
  take (length xs - suc n) xs,
  take-drop (length xs - suc n) xs,
  ground (arith, length-drop (length xs - suc n) xs),
)
slice_last-suffix (negsuc n) xs = (take (suc n) xs, take-drop (suc n) xs, length-drop (suc n) xs)

abbrev pub IsFresh : String → List String → Type 0
IsFresh n [] = Unit
IsFresh n (m ∷ ms) = (n == m ≡ false) × IsFresh n ms

-- No name twice.
abbrev pub AreDistinct : List String → Type 0
AreDistinct [] = Unit
AreDistinct (n ∷ ns) = IsFresh n ns × AreDistinct ns

module _ {S J E V T : Type 0} (substrate : Substrate S J E V T) where
  -- A replay of a memory that can be read returns its last events: with a positive limit as many as
  -- there are, up to the limit; with the limit 0 all of them; and with a negative limit all but the
  -- first so many.
  pub memory_replay_bounds :
      (limit : ℤ) (s : S) (events : List E)
      → substrate.replay s ≡ ok events
      → (replay earlier : List E) × (memory_replay substrate limit s ≡ ok replay)
        × (earlier ++ replay ≡ events)
        × (length replay ≡ replayed limit (length events))
  unfolding memory_replay
  memory_replay_bounds limit s events h =
      let (earlier, whole, size) = slice_last-suffix limit events in
      (slice_last limit events, earlier, ap (sliced limit) h, whole, size)

insert_new :
    {T : Type 0} (n : String) (t : T) (d : Dict T)
    → Dict.contains n d ≡ false
    → Dict.insert n t d ≡ d ++ (n, t) ∷ []
unfolding Dict.insert Dict.get
insert_new n t [] h = refl
insert_new n t ((m, u) ∷ d) h = ground (arith, insert_new n t d, h)

module _ {S T : Type 0} where
  abbrev pub names_of : List (Core S T) → List String
  names_of = map (λ core. core.name)

  -- Each core ticks once, in this order, and answers what the dict has at its place.
  abbrev pub Ticked : List (Core S T) → S → Dict T → S → Type 0
  Ticked [] s d s' = (d ≡ []) × (s' ≡ s)
  Ticked (core ∷ cores) s [] s' = ⊥
  Ticked (core ∷ cores) s ((n, t) ∷ d) s' =
      (n ≡ core.name) × ((core.tick s).0 ≡ ok t) × Ticked cores (core.tick s).1 d s'

  -- The cores before one that raises have ticked; it raises, and none ticks after it.
  pub record StopsAt (cores : List (Core S T)) (s : S) (e : Exn) (s' : S) : Type 0 where
    pub before : List (Core S T)
    pub core : Core S T
    pub after : List (Core S T)
    pub answers : Dict T
    pub reached : S
    pub split : cores ≡ before ++ core ∷ after
    pub ticked : Ticked before s answers reached
    pub raises : core.tick reached ≡ (err e, s')

  -- None of the names is a key.
  AreNew : Dict T → List (Core S T) → Type 0
  AreNew d [] = Unit
  AreNew d (core ∷ cores) = (Dict.contains core.name d ≡ false) × AreNew d cores

  AreNew-empty : (cores : List (Core S T)) → AreNew [] cores
  unfolding AreNew Dict.get
  AreNew-empty [] = tt
  AreNew-empty (core ∷ cores) = (refl, AreNew-empty cores)

  AreNew-insert :
      (n : String) (t : T) (d : Dict T) (cores : List (Core S T))
      → IsFresh n (names_of cores)
      → AreNew d cores
      → AreNew (Dict.insert n t d) cores
  unfolding AreNew
  AreNew-insert n t d [] fresh new = tt
  AreNew-insert n t d (core ∷ cores) fresh new = (
    ground (arith, Dict.get-insert n core.name t d, fresh.0, new.0),
    AreNew-insert n t d cores fresh.1 new.1,
  )

  tick_all_outcomes :
      (cores : List (Core S T)) (d : Dict T) (s : S)
      → AreDistinct (names_of cores)
      → AreNew d cores
      → ((more : Dict T) × (s' : S) × (tick_all cores d s ≡ (ok (d ++ more), s'))
          × Ticked cores s more s')
        ⊎ ((e : Exn) × (s' : S) × (tick_all cores d s ≡ (err e, s')) × StopsAt cores s e s')
  unfolding tick_all AreNew
  tick_all_outcomes [] d s distinct new =
      inl ([], s, ap (λ x. (ok x, s)) (sym (append-nil d)), (refl, refl))
  tick_all_outcomes (core ∷ cores) d s distinct new = elim (Result-cases (core.tick s).0) [
    | inr (e, h) ↦ inr (
      e,
      (core.tick s).1,
      rw h refl,
      record {
        before = [];
        core = core;
        after = cores;
        answers = [];
        reached = s;
        split = refl;
        ticked = (refl, refl);
        raises = ap (λ r. (r, (core.tick s).1)) h;
      },
    )
    | inl (t, h) ↦
        elim (tick_all_outcomes cores (Dict.insert core.name t d) (core.tick s).1 distinct.1
          (AreNew-insert core.name t d cores distinct.0 new.1)) [
            | inl (more, s', e, ticked) ↦ inl (
              (core.name, t) ∷ more,
              s',
              rw h (
                  e
                  ∙ ap (λ x. (ok x, s'))
                      (ap (λ x. x ++ more) (insert_new core.name t d new.0)
                        ∙ append_assoc d ((core.name, t) ∷ []) more)),
              (refl, h, ticked),
            )
            | inr (e, s', raised, stops) ↦ inr (
              e,
              s',
              rw h raised,
              record {
                before = core ∷ stops.before;
                core = stops.core;
                after = stops.after;
                answers = (core.name, t) ∷ stops.answers;
                reached = stops.reached;
                split = ap (λ cs. core ∷ cs) stops.split;
                ticked = (refl, h, stops.ticked);
                raises = stops.raises;
              },
            )
          ]
  ]

module _ {S J E V T : Type 0} (substrate : Substrate S J E V T) where
  -- Where no two cores have the same name, each core ticks once, in the order of the registry, and
  -- the reply has its answer under its name; or a core raises, those before it have ticked, those
  -- after it do not, and the exception is passed on.
  pub core_health_outcomes :
      (s : S)
      → AreDistinct (names_of (substrate.cores s))
      → ((reply : Dict T) × (s' : S) × (core_health substrate s ≡ (ok reply, s'))
          × Ticked (substrate.cores s) s reply s')
        ⊎ ((e : Exn) × (s' : S) × (core_health substrate s ≡ (err e, s'))
            × StopsAt (substrate.cores s) s e s')
  unfolding core_health
  core_health_outcomes s distinct =
      tick_all_outcomes (substrate.cores s) [] s distinct (AreNew-empty (substrate.cores s))
