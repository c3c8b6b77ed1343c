-- ===== src/Storage/Lazy.antt =====
-- gaia_server/storage/__init__.py: the attribute of the package that imports a backend.
use gaia_server.Base.{String, none, some, [], ◌∷◌, err, Exec}
use gaia_server.Dict
use gaia_server.Dict.{Dict}
use gaia_server.Errors.{Exn, attribute_error}

-- `_map`: the module of each class.
abbrev pub modules : Dict String
modules =
    ("EtcdMetadataStore", "gaia_server.storage.etcd")
    ∷ ("JetStreamEventStore", "gaia_server.storage.jetstream")
    ∷ ("MinIOCheckpointStore", "gaia_server.storage.minio")
    ∷ ("StorageRegistry", "gaia_server.storage.registry")
    ∷ []

-- `__getattr__`. `import_attribute` is `importlib.import_module` with `getattr`: it may change the
-- modules that are loaded, the state, and raise.
unfoldable pub getattr : {S A : Type 0} → (String → String → Exec Exn S A) → String → Exec Exn S A
getattr import_attribute name s = elim (Dict.get name modules) [
  | some mod_name ↦ import_attribute mod_name name s
  | none ↦ (err (attribute_error name), s)
]
