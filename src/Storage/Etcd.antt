-- ===== src/Storage/Etcd.antt =====
-- gaia_server/storage/etcd.py: the class EtcdMetadataStore over a client of the package etcd3.
use Prim.Native.String.{◌++◌ as concat}
use gaia_server.Base.{
  ℕ, String, ◌≡◌, ◌≢◌, ◌⊎◌, Bool, true, false, Option, none, some, List, ◌==◌, if◌then◌else◌,
  Result, ok, err, Exec, ◌>>=◌,
}
use gaia_server.Base.Text.{Bytes, lstrip_slash}
use gaia_server.Errors.{Exn, RestoreError, restore_error}

-- etcd3.Etcd3Client: each call may raise. `S` is the state of the servers.
pub record EtcdClient (S : Type 0) : Type 0 where
  -- The value of a key, or `none`.
  pub client_get : String → S → Result Exn (Option Bytes)
  -- A lease of so many seconds.
  pub lease : ℕ → Exec Exn S ℕ
  pub client_put : String → Bytes → Option ℕ → Exec Exn S (Unit {0})
  pub client_delete : String → Exec Exn S (Unit {0})
  -- A transaction that compares a key's value, and on success puts a value under the key.
  pub put_if_value : String → Bytes → Bytes → Exec Exn S Bool
  -- The values and keys under a prefix.
  pub client_get_prefix : String → S → Result Exn (List (Bytes × String))
  -- The leader's id and the version.
  pub status : S → Result Exn (ℕ × String)

-- What etcd promises, of the values that its server holds.
pub record EtcdLaws {S : Type 0} (client : EtcdClient S) (stored : S → String → Option Bytes)
    : Type 0 where
  pub get_reports :
      (k : String) (s : S) (v : Option Bytes) → client.client_get k s ≡ ok v → v ≡ stored s k
  pub put_stores :
      (k : String) (v : Bytes) (l : Option ℕ) (s : S)
      → (client.client_put k v l s).0 ≡ ok tt
      → (j : String)
      → stored (client.client_put k v l s).1 j ≡ (if k == j then some v else stored s j)
  pub swap_stores :
      (k : String) (e v : Bytes) (s : S)
      → (client.put_if_value k e v s).0 ≡ ok true
      → (stored s k ≡ some e)
        × ((j : String)
            → stored (client.put_if_value k e v s).1 j ≡ (if k == j then some v else stored s j))
  pub failed_swap_keeps :
      (k : String) (e v : Bytes) (s : S)
      → (client.put_if_value k e v s).0 ≡ ok false
      → (j : String) → stored (client.put_if_value k e v s).1 j ≡ stored s j
  -- A transaction whose answer is lost has been applied whole or not at all.
  pub raised_swap :
      (k : String) (e v : Bytes) (s : S) (x : Exn)
      → (client.put_if_value k e v s).0 ≡ err x
      → ((j : String) → stored (client.put_if_value k e v s).1 j ≡ stored s j)
        ⊎ ((stored s k ≡ some e)
            × ((j : String)
                → stored (client.put_if_value k e v s).1 j
                  ≡ (if k == j then some v else stored s j)))
  -- The library does not raise the exceptions of this program.
  pub put_raises :
      (k : String) (v : Bytes) (l : Option ℕ) (s : S) (e : RestoreError)
      → (client.client_put k v l s).0 ≢ err (restore_error e)
  pub swap_raises :
      (k : String) (x v : Bytes) (s : S) (e : RestoreError)
      → (client.put_if_value k x v s).0 ≢ err (restore_error e)

-- An etcd that answers every call, of the values that its server holds.
pub record AnswersCalls {S : Type 0} (client : EtcdClient S) (stored : S → String → Option Bytes)
    : Type 0 where
  pub gets : (k : String) (s : S) → client.client_get k s ≡ ok (stored s k)
  pub puts : (k : String) (v : Bytes) (s : S) → (client.client_put k v none s).0 ≡ ok tt
  pub swaps :
      (k : String) (e v : Bytes) (s : S)
      → stored s k ≡ some e
      → (client.put_if_value k e v s).0 ≡ ok true

pub record EtcdMetadataStore (S : Type 0) : Type 0 where
  pub client : EtcdClient S
  pub ns : String

-- `_key`: `f"/{self._ns}/{key.lstrip('/')}"`
unfoldable pub full_key : String → String → String
full_key ns key = concat "/" (concat ns (concat "/" (lstrip_slash key)))

-- `health`
pub data EtcdHealth : Type 0 where
  etcd_ok : ℕ → String → EtcdHealth
  etcd_error : Exn → EtcdHealth

module _ {S : Type 0} (store : EtcdMetadataStore S) where
  open store use {client, ns}

  unfoldable pub get : String → S → Result Exn (Option Bytes)
  get key s = client.client_get (full_key ns key) s

  unfoldable pub put : String → Bytes → Option ℕ → Exec Exn S (Unit {0})
  put key value none = client.client_put (full_key ns key) value none
  put key value (some ttl_seconds) =
      client.lease ttl_seconds >>= λ l. client.client_put (full_key ns key) value (some l)

  unfoldable pub delete : String → Exec Exn S (Unit {0})
  delete key = client.client_delete (full_key ns key)

  unfoldable pub compare_and_swap : String → Bytes → Bytes → Exec Exn S Bool
  compare_and_swap key expected value = client.put_if_value (full_key ns key) expected value

  unfoldable pub get_prefix : String → S → Result Exn (List (Bytes × String))
  get_prefix prefix s = client.client_get_prefix (full_key ns prefix) s

  unfoldable pub health : S → EtcdHealth
  health s = elim (client.status s) [
    | ok (leader, version) ↦ etcd_ok leader version
    | err e ↦ etcd_error e
  ]
