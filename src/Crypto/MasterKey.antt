-- ===== src/Crypto/MasterKey.antt =====
-- internal/crypto/masterkey.go, but the path of the key's file.
use kubernetes_agent.Base.{
  ℕ, String, Bool, true, false, Option, none, some, Result, ok, err, ◌≡◌, refl, length, nat_eq,
  ◌==◌, if◌then◌else◌,
}
use kubernetes_agent.Crypto.{Bytes}

-- the key's file: its content and its permissions
pub data KeyFile : Type 0 where
  absent unreadable : KeyFile
  file : Bytes → ℕ → KeyFile

pub data KeyError : Type 0 where
  not_base64 wrong_size no_home not_readable wrong_permissions is_root no_random not_written :
      KeyError

-- the variable's text, base64.StdEncoding, whether $HOME is set and the user is root, what rand.Read gives,
-- and what MkdirAll and WriteFile do: whether they succeed, and the file after them
pub record KeyEnv : Type 0 where
  pub variable : String
  pub decode : String → Option Bytes
  pub has_home : Bool
  pub root : Bool
  pub random : Option Bytes
  pub write : Bytes → Bool × KeyFile

abbrev pub sized : Bytes → Result KeyError Bytes
sized key = if nat_eq (length key) 32 then ok key else err wrong_size

abbrev pub from_variable : Option Bytes → Result KeyError Bytes
from_variable none = err not_base64
from_variable (some key) = sized key

abbrev pub key_written : Bytes → Bool × KeyFile → Result KeyError Bytes × KeyFile
key_written key (done, f) = (if done then ok key else err not_written, f)

abbrev pub persisted : KeyEnv → Option Bytes → Result KeyError Bytes × KeyFile
persisted e none = (err no_random, absent)
persisted e (some key) = key_written key (e.write key)

-- GenerateAndPersist
unfoldable pub generate_and_persist : KeyEnv → Result KeyError Bytes × KeyFile
generate_and_persist e = if e.root then (err is_root, absent) else persisted e e.random

abbrev pub owner_only : ℕ
owner_only = 384

abbrev pub from_file : KeyEnv → KeyFile → Result KeyError Bytes × KeyFile
unfolding generate_and_persist
from_file e absent = generate_and_persist e
from_file e unreadable = (err not_readable, unreadable)
from_file e (file key perm) =
    (if nat_eq perm owner_only then sized key else err wrong_permissions, file key perm)

-- LoadMasterKey, and the file after it
unfoldable pub load_master_key : KeyEnv → KeyFile → Result KeyError Bytes × KeyFile
unfolding from_file
load_master_key e f =
    if e.variable == ""
    then (if e.has_home then from_file e f else (err no_home, f))
    else (from_variable (e.decode e.variable), f)

-- the key that was made at the first start is the one that is loaded at the next, if the file was written
-- with the permissions asked for
pub load_master_key-again :
    (e : KeyEnv) (key : Bytes)
    → (e.variable == "") ≡ true
    → e.has_home ≡ true
    → e.root ≡ false
    → e.random ≡ some key
    → nat_eq (length key) 32 ≡ true
    → e.write key ≡ (true, file key owner_only)
    → let first = load_master_key e absent in
      (first.0 ≡ ok key) × ((load_master_key e first.1).0 ≡ ok key)
unfolding load_master_key from_file generate_and_persist
load_master_key-again e key v h r k n w = rw (v, h, r, k, w, n) (refl, refl)
