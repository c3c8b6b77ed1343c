-- ===== src/Storage/FactoryExamples.antt =====
-- The theorems on settings, bootstrap and factory at concrete servers.
use gaia_server.Base.{String, ◌≡◌, refl, [], ◌∷◌, ok, err, ◌⊎◌}
use gaia_server.Dict.{Dict}
use gaia_server.Errors.{Exn, attribute_error, value_error}
use gaia_server.Storage.Settings.{StorageSettings, from_env}
use gaia_server.Storage.Environment.{IsRead, HasBadNumber, from_env_outcomes}
use gaia_server.Storage.Bootstrap.{NatsConnection, ensure_stream, ensure_each, ensure_streams}
use gaia_server.Storage.Streams.{needed, AreEnsured, StopsAt, ensure_streams_outcomes}
use gaia_server.Storage.Cluster.{Cluster, connection, empty_cluster}

ensure_streams_outcomes_example :
    ((s' : Cluster) × (ensure_streams connection empty_cluster ≡ (ok tt, s'))
      × AreEnsured connection needed empty_cluster s')
    ⊎ ((e : Exn) × (s' : Cluster) × (ensure_streams connection empty_cluster ≡ (err e, s'))
        × StopsAt connection needed empty_cluster e s')
ensure_streams_outcomes_example = ensure_streams_outcomes connection empty_cluster

-- A package that has no such search.
abbrev without_search : NatsConnection Cluster (Unit {0})
without_search = record connection { find_stream = λ name s. err (attribute_error "find_stream") }

nothing_is_added :
    ensure_streams without_search empty_cluster
    ≡ (err (attribute_error "find_stream"), empty_cluster)
unfolding ensure_streams ensure_each ensure_stream
nothing_is_added = refl

abbrev environment : Dict String
environment = ("ETCD_PORT", " 2380 ") ∷ ("MINIO_SECURE", "True") ∷ []

from_env_outcomes_example :
    ((cfg : StorageSettings) × (from_env environment ≡ ok cfg) × IsRead environment cfg)
    ⊎ ((from_env environment ≡ err value_error) × HasBadNumber environment)
from_env_outcomes_example = from_env_outcomes environment
