-- ===== src/Examples/Servers.antt =====
-- A server on which an account is made, claims a handle and binds a key.
use oma_chat.Base.{
  ◌≡◌, refl, true, false, Option, none, some, List, [], ◌∷◌, ok, arith, replicate, allb, anyb,
  filterb, take, Bytes, text, bytes_eq, list_eq, reject_if, ok_or,
}
use oma_chat.Crypto.Account.{
  parse_global_handle, strip_at, is_between, is_ascii_lowercase, is_ascii_digit, is_handle_byte,
  starts_lowercase,
}
use oma_chat.Server.Transcripts.{
  nostr_bind_transcript, nostr_unbind_transcript, proof_transcript, push_str, to_be_bytes,
  clamped_u16,
}
use oma_chat.Server.Transcripts.Binding.{Proof, IsProof, proof_transcript-injective}
use oma_chat.Server.Storage
use oma_chat.Server.Storage.{
  Storage, StorageError, AccountRecord, empty_storage, has_value, find_by, find_device, update,
  is_taken, write_handle, claim_handle, remember_proof_nonce, drop_before, to_i64, resolve_handle,
  nostr_for_handle, stored_key, fixed_key,
}
use oma_chat.Server.Storage.Integrity.{IsStorage}
use oma_chat.Server.Service
use oma_chat.Server.Service.{
  handle, Service, ServiceLib, ServiceConfig, ServiceRequest, BindProof, Reply, register_device,
  command_of, nip05_name, status, bind_nostr_key, serve, fresh_timestamp, check_bind, commit_bind,
  account, decode_sized, decode_nostr_key, verify_device, verify_nostr, answer, names, binding,
  nip05,
}
use oma_chat.Server.Service.Serving.{serve-IsStorage}
use oma_chat.Server.Service.Handles.{claim_handle-serve}
use oma_chat.Server.Service.Binding.{IsBound, bind_nostr-IsBound}
use oma_chat.Server.Service.Refinement.{Refines}
use oma_chat.Server.Service.Steps.{handle-Refines}
use oma_chat.Server.Service.Names.{nip05-parse_global_handle}

-- Hexadecimal as it is, and every signature verifies.
abbrev lib : ServiceLib
lib = record {
  chars = record { chars = λ b. b; trim = λ b. b; is_control = λ c. false };
  hex_encode = λ b. b;
  hex_decode = λ b. some b;
  is_device_key = λ k. true;
  verify_strict = λ k m s. true;
  is_nostr_key = λ k. true;
  is_nostr_signature = λ s. true;
  verify_raw = λ k m s. true;
  npub = λ k. k;
}

abbrev config : ServiceConfig
config = record { server_public_key = replicate 32 1; nip05_relays = [] }

abbrev device : Bytes
device = replicate 32 2

abbrev with_ada : Storage
with_ada = record {
  accounts =
      record {
        id = text "id";
        handle = none;
        display_name = text "Ada";
        created_at = 10;
        nostr_pubkey = none;
      }
      ∷ [];
  devices =
      record { public_key = device; account_id = text "id"; created_at = 10; last_seen = 10 } ∷ [];
  nostr_proof_nonces = [];
}

abbrev named : Storage
named = record with_ada {
  accounts =
      record {
        id = text "id";
        handle = some (text "ada");
        display_name = text "Ada";
        created_at = 10;
        nostr_pubkey = none;
      }
      ∷ [];
}

abbrev keyed : Storage
keyed = record with_ada {
  accounts =
      record {
        id = text "id";
        handle = some (text "ada");
        display_name = text "Ada";
        created_at = 10;
        nostr_pubkey = some (replicate 32 4);
      }
      ∷ [];
  nostr_proof_nonces =
      record { nonce = replicate 32 5; account_id = text "id"; seen_at = 100 } ∷ [];
}

abbrev serving : Storage → Service
serving storage = record { storage = storage; config = config; subscribers = [] }

abbrev proof : BindProof
proof = record {
  nostr_public_key = replicate 32 4;
  nonce = replicate 32 5;
  timestamp = 90;
  device_signature = replicate 64 6;
  nostr_signature = replicate 64 7;
}

abbrev requests : List (Option Bytes × ServiceRequest)
requests =
    (some (text "id"), register_device device (some (text "Ada")) 10)
    ∷ (none, command_of (text "id") device (Service.Command.claim_handle_of (text "@ada")) 20)
    ∷ (none, command_of (text "id") device (bind_nostr_key proof) 100)
    ∷ (none, nip05_name (text "Ada"))
    ∷ []

empty-IsStorage : IsStorage empty_storage
empty-IsStorage = record {
  ids = λ v. omega arith;
  handles = λ v. omega arith;
  pubkeys = λ v. omega arith;
  devices = λ v. omega arith;
  nonces = λ v. omega arith;
}

serve-IsStorage_example : IsStorage (serve lib (serving empty_storage) requests).storage
serve-IsStorage_example = serve-IsStorage lib (serving empty_storage) requests empty-IsStorage

one_account : IsStorage with_ada
unfolding has_value
one_account = record {
  ids = λ v. ground arith;
  handles = λ v. omega arith;
  pubkeys = λ v. omega arith;
  devices = λ v. ground arith;
  nonces = λ v. omega arith;
}

one_name : IsStorage named
unfolding has_value
one_name = record {
  ids = λ v. ground arith;
  handles = λ v. ground arith;
  pubkeys = λ v. omega arith;
  devices = λ v. ground arith;
  nonces = λ v. omega arith;
}

ada_claims : claim_handle with_ada (text "id") (text "ada") ≡ (named, ok tt)
unfolding claim_handle write_handle find_by has_value update is_taken bytes_eq list_eq
ada_claims = refl

claim_handle-serve_example :
    (r : AccountRecord) × (resolve_handle (serve lib (serving named) requests).storage (text "ada")
      ≡ some r)
    × (r.id ≡ text "id")
claim_handle-serve_example =
    claim_handle-serve lib (serving with_ada) (text "id") (text "ada") named requests one_account
      ada_claims

ada_binds :
    Service.bind_nostr lib (serving named) (text "id") device proof 100
    ≡ (serving keyed, ok (binding (text "ada") (replicate 32 4) (replicate 32 4)))
unfolding Service.bind_nostr check_bind commit_bind account Storage.account decode_nostr_key
    decode_sized fresh_timestamp verify_device verify_nostr nostr_bind_transcript proof_transcript
    push_str to_be_bytes clamped_u16 take remember_proof_nonce drop_before to_i64 Storage.bind_nostr
    answer find_by has_value update is_taken filterb anyb bytes_eq list_eq reject_if ok_or
ada_binds = refl

bind_nostr-IsBound_example :
    IsBound lib (serving named) (serving keyed) (text "id") device proof 100
bind_nostr-IsBound_example =
    bind_nostr-IsBound lib (serving named) (serving keyed) (text "id") device proof 100
      (binding (text "ada") (replicate 32 4) (replicate 32 4)) one_name ada_binds

nonce_new : (remember_proof_nonce named (replicate 32 5) (text "id") 100 300).1 ≡ ok tt
unfolding remember_proof_nonce drop_before to_i64 filterb anyb
nonce_new = refl

still_fresh : fresh_timestamp 90 390 ≡ ok tt
unfolding fresh_timestamp reject_if
still_fresh = refl

-- A proof whose time is 300 seconds ahead of the clock passes twice.
future_proof :
    (fresh_timestamp 1300 1000 ≡ ok tt)
    × (fresh_timestamp 1300 1301 ≡ ok tt)
    × ((remember_proof_nonce
          (remember_proof_nonce named (replicate 32 5) (text "id") 1000 300).0
          (replicate 32 5)
          (text "id")
          1301
          300).1
        ≡ ok tt)
unfolding fresh_timestamp remember_proof_nonce drop_before to_i64 filterb anyb bytes_eq list_eq
    reject_if
future_proof = (refl, refl, refl)

ada_parses : parse_global_handle (text "@ada") ≡ ok (text "ada")
unfolding parse_global_handle strip_at is_between starts_lowercase is_handle_byte is_ascii_lowercase
    is_ascii_digit allb
ada_parses = refl

ada_has_key : nostr_for_handle keyed (text "ada") ≡ ok (some (replicate 32 4))
unfolding nostr_for_handle stored_key fixed_key find_by has_value bytes_eq list_eq
ada_has_key = refl

nip05-parse_global_handle_example :
    (parse_global_handle (text "ada") ≡ ok (text "ada"))
    × (nip05 lib (serving keyed) (text "ada") ≡ ok (names (text "ada") (replicate 32 4) []))
nip05-parse_global_handle_example =
    nip05-parse_global_handle lib (serving keyed) (text "@ada") (text "ada") (replicate 32 4)
      ada_parses ada_has_key

abbrev first_proof : Proof
first_proof = record {
  server_public_key = replicate 32 1;
  account_id = text "id";
  handle = text "ada";
  nostr_public_key = replicate 32 4;
  nonce = replicate 32 5;
  timestamp = 90;
}

abbrev second_proof : Proof
second_proof = record first_proof { handle = text "adb" }

first-IsProof : IsProof first_proof
first-IsProof = record {
  server_size = refl;
  account_fits = omega arith;
  handle_fits = omega arith;
  key_size = refl;
  nonce_size = refl;
  time_fits = omega arith;
}

second-IsProof : IsProof second_proof
second-IsProof = record {
  server_size = refl;
  account_fits = omega arith;
  handle_fits = omega arith;
  key_size = refl;
  nonce_size = refl;
  time_fits = omega arith;
}

proof_transcript-injective_example :
    (nostr_bind_transcript
          (replicate 32 1)
          (text "id")
          (text "ada")
          (replicate 32 4)
          (replicate 32 5)
          90
        ≡ nostr_bind_transcript
            (replicate 32 1)
            (text "id")
            (text "adb")
            (replicate 32 4)
            (replicate 32 5)
            90
      → first_proof ≡ second_proof)
    × (nostr_unbind_transcript
            (replicate 32 1)
            (text "id")
            (text "ada")
            (replicate 32 4)
            (replicate 32 5)
            90
          ≡ nostr_unbind_transcript
              (replicate 32 1)
              (text "id")
              (text "adb")
              (replicate 32 4)
              (replicate 32 5)
              90
        → first_proof ≡ second_proof)
    × ¬ (
        nostr_bind_transcript
          (replicate 32 1)
          (text "id")
          (text "ada")
          (replicate 32 4)
          (replicate 32 5)
          90
        ≡ nostr_unbind_transcript
            (replicate 32 1)
            (text "id")
            (text "adb")
            (replicate 32 4)
            (replicate 32 5)
            90)
proof_transcript-injective_example =
    proof_transcript-injective first_proof second_proof first-IsProof second-IsProof

handle-Refines_example :
    Refines named
      (handle lib none
        (serving named)
        (command_of (text "id") device (bind_nostr_key proof) 100)).0.storage
handle-Refines_example =
    handle-Refines lib (serving named) none
      (command_of (text "id") device (bind_nostr_key proof) 100)
