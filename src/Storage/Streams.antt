-- ===== src/Storage/Streams.antt =====
-- How the bootstrap of the streams ends, whatever the package nats answers.
use gaia_server.Base.{
  String, ◌≡◌, ◌≢◌, refl, ap, ◌⊎◌, inl, inr, Result, Result-cases, List, [], ◌∷◌, ◌++◌, ok, err,
}
use gaia_server.Dict.{Dict}
use gaia_server.Errors.{
  Exn, restore_error, not_implemented, nats_timeout, nats_not_found, s3_error, key_error,
  attribute_error, value_error, raised,
}
use gaia_server.Storage.Bootstrap.{
  limits, in_file, old, StreamConfig, NatsConnection, config_of, after_search, ensure_stream,
  ensure_each, ensure_streams,
}

-- The streams that the server needs, with their subjects, in the order of the bootstrap.
abbrev pub needed : Dict (List String)
needed =
    ("gaia-events", "gaia.events.>" ∷ [])
    ∷ ("gaia-checkpoints", "gaia.checkpoints.>" ∷ [])
    ∷ ("gaia-federation", "gaia.federation.>" ∷ [])
    ∷ ("gaia-governance", "gaia.governance.>" ∷ [])
    ∷ ("gaia-validation", "gaia.validation.>" ∷ [])
    ∷ []

-- The configuration of a stream that is added: one replica in a file, limits and seven days.
pub record IsStandard (name : String) (subjects : List String) (c : StreamConfig) : Type 0 where
  pub called : c.name ≡ name
  pub takes : c.subjects ≡ subjects
  pub keeps : c.retention ≡ limits
  pub drops : c.discard ≡ old
  pub stands : c.storage ≡ in_file
  pub copies : c.num_replicas ≡ 1
  pub age : c.max_age ≡ 604800

config_of-IsStandard :
    (name : String) (subjects : List String) → IsStandard name subjects (config_of name subjects)
unfolding config_of
config_of-IsStandard name subjects = record {
  called = refl;
  takes = refl;
  keeps = refl;
  drops = refl;
  stands = refl;
  copies = refl;
  age = refl;
}

-- The three ends of a search.
search_cases :
    {S : Type 0} (r : Result Exn (Unit {0}))
    → (r ≡ ok tt)
      ⊎ ((r ≡ err nats_not_found)
          ⊎ ((e : Exn) × (r ≡ err e)
              × (e ≢ nats_not_found)
              × ((added : Result Exn (Unit {0}) × S) (s : S)
                  → after_search r added s ≡ (err e, s))))
search_cases (ok u) = inl refl
search_cases (err nats_not_found) = inr (inl refl)
search_cases (err (restore_error x)) = inr (inr (_, refl, λ h. cc, λ added s. refl))
search_cases (err not_implemented) = inr (inr (_, refl, λ h. cc, λ added s. refl))
search_cases (err nats_timeout) = inr (inr (_, refl, λ h. cc, λ added s. refl))
search_cases (err (s3_error x)) = inr (inr (_, refl, λ h. cc, λ added s. refl))
search_cases (err (key_error x)) = inr (inr (_, refl, λ h. cc, λ added s. refl))
search_cases (err (attribute_error x)) = inr (inr (_, refl, λ h. cc, λ added s. refl))
search_cases (err value_error) = inr (inr (_, refl, λ h. cc, λ added s. refl))
search_cases (err (raised x)) = inr (inr (_, refl, λ h. cc, λ added s. refl))

module _ {S Sub : Type 0} (nc : NatsConnection S Sub) where
  -- Each stream, in this order, was found and left as it is, or was not found and has been added.
  abbrev pub AreEnsured : Dict (List String) → S → S → Type 0
  AreEnsured [] s s' = s' ≡ s
  AreEnsured ((name, subjects) ∷ rest) s s' =
      ((nc.find_stream name s ≡ ok tt) × AreEnsured rest s s')
      ⊎ ((c : StreamConfig) × IsStandard name subjects c
          × (nc.find_stream name s ≡ err nats_not_found)
          × ((nc.add_stream c s).0 ≡ ok tt)
          × AreEnsured rest (nc.add_stream c s).1 s')

  -- The search for this stream raises, and nothing is added; or it is not found, and adding it
  -- raises.
  abbrev pub Fails : String → List String → S → Exn → S → Type 0
  Fails name subjects s e s' =
      ((nc.find_stream name s ≡ err e) × (e ≢ nats_not_found) × (s' ≡ s))
      ⊎ ((c : StreamConfig) × IsStandard name subjects c
          × (nc.find_stream name s ≡ err nats_not_found)
          × (nc.add_stream c s ≡ (err e, s')))

  -- The streams before one that fails are ensured, and those after it are not looked at.
  pub record StopsAt (list : Dict (List String)) (s : S) (e : Exn) (s' : S) : Type 0 where
    pub before : Dict (List String)
    pub name : String
    pub subjects : List String
    pub after : Dict (List String)
    pub reached : S
    pub split : list ≡ before ++ (name, subjects) ∷ after
    pub ensured : AreEnsured before s reached
    pub fails : Fails name subjects reached e s'

  ensure_stream_outcomes :
      (name : String) (subjects : List String) (s : S)
      → ((ensure_stream nc name subjects s).0 ≡ ok tt)
          × ((rest : Dict (List String)) (s' : S)
              → AreEnsured rest (ensure_stream nc name subjects s).1 s'
              → AreEnsured ((name, subjects) ∷ rest) s s')
        ⊎ ((e : Exn) × ((ensure_stream nc name subjects s).0 ≡ err e)
            × Fails name subjects s e (ensure_stream nc name subjects s).1)
  unfolding ensure_stream
  ensure_stream_outcomes name subjects s = elim (search_cases {S = S} (nc.find_stream name s)) [
    | inl there ↦ inl (rw there refl, λ rest s' h. inl (there, rw there at h))
    | inr (inr (e, raises, other, stays)) ↦
        inr (e, ap (λ r. r.0) (stays _ s), inl (raises, other, ap (λ r. r.1) (stays _ s)))
    | inr (inl missing) ↦
        let c = config_of name subjects in
        elim (Result-cases (nc.add_stream c s).0) [
          | inl (_, added) ↦ inl (
            rw (missing, added) refl,
            λ rest s' h.
                inr (c, config_of-IsStandard name subjects, missing, added, rw missing at h),
          )
          | inr (e, raises) ↦ inr (
            e,
            rw (missing, raises) refl,
            inr (
              c,
              config_of-IsStandard name subjects,
              missing,
              rw missing (ap (λ r. (r, (nc.add_stream c s).1)) raises),
            ),
          )
        ]
  ]

  ensure_each_outcomes :
      (list : Dict (List String)) (s : S)
      → ((s' : S) × (ensure_each nc list s ≡ (ok tt, s')) × AreEnsured list s s')
        ⊎ ((e : Exn) × (s' : S) × (ensure_each nc list s ≡ (err e, s')) × StopsAt list s e s')
  unfolding ensure_each
  ensure_each_outcomes [] s = inl (s, refl, refl)
  ensure_each_outcomes ((name, subjects) ∷ rest) s =
      let t = (ensure_stream nc name subjects s).1 in
      elim (ensure_stream_outcomes name subjects s) [
        | inr (e, raises, how) ↦ inr (
          e,
          t,
          rw raises refl,
          record {
            before = [];
            name = name;
            subjects = subjects;
            after = rest;
            reached = s;
            split = refl;
            ensured = refl;
            fails = how;
          },
        )
        | inl (returns, more) ↦ elim (ensure_each_outcomes rest t) [
          | inl (s', e, ensured) ↦ inl (s', rw returns e, more rest s' ensured)
          | inr (e, s', raised', stops) ↦ inr (
            e,
            s',
            rw returns raised',
            record {
              before = (name, subjects) ∷ stops.before;
              name = stops.name;
              subjects = stops.subjects;
              after = stops.after;
              reached = stops.reached;
              split = ap (λ list. (name, subjects) ∷ list) stops.split;
              ensured = more stops.before stops.reached stops.ensured;
              fails = stops.fails;
            },
          )
        ]
      ]

  -- Whatever the calls of the package nats answer: the bootstrap looks for the five streams in their
  -- order, leaves each that is found as it is, and adds each that is not, under its subjects, with
  -- one replica in a file, limits and seven days. It returns when all are done. The first search that
  -- raises another exception than NotFoundError, and the first addition that raises, end it with that
  -- exception; the streams before are done, and those after are not looked at.
  pub ensure_streams_outcomes :
      (s : S)
      → ((s' : S) × (ensure_streams nc s ≡ (ok tt, s')) × AreEnsured needed s s')
        ⊎ ((e : Exn) × (s' : S) × (ensure_streams nc s ≡ (err e, s')) × StopsAt needed s e s')
  unfolding ensure_streams
  ensure_streams_outcomes s = ensure_each_outcomes needed s
