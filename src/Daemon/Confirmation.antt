-- ===== src/Daemon/Confirmation.antt =====
-- crates/omachatd/src/confirmation.rs: the one-time tokens that a destructive action asks for. The
-- mutex is held by each call from its start to its end, so a call is a function of the map. The
-- random bytes, hexadecimal and the calls of `std::fs`, of which only success is seen, are `Host`.
pub mod Tokens
use oma_chat.Base.{
  ℕ, ◌+◌, ◌*◌, Bool, true, false, not, ◌||◌, Option, none, some, List, [], ◌∷◌, ◌++◌, Result, ok,
  err, ◌>>=◌, ◌>>◌, reject_if, ok_or, leb, Bytes, text, bytes_eq, saturating_add, if◌then◌else◌,
}
use oma_chat.Base.Assoc
use oma_chat.Base.Assoc.{BTreeMap}

abbrev pub confirmation_ttl_seconds : ℕ
confirmation_ttl_seconds = 2 * 60

pub data ConfirmationAction : Type 0 where
  panic_erase : ConfirmationAction

-- The derived `==`.
unfoldable pub action_eq : ConfirmationAction → ConfirmationAction → Bool
action_eq panic_erase panic_erase = true

unfoldable pub file_name : ConfirmationAction → Bytes
file_name panic_erase = text "panic.token"

pub record PendingToken : Type 0 where
  pub action : ConfirmationAction
  pub token : Bytes
  pub expires_at : ℕ

pub record IssuedConfirmation : Type 0 where
  pub token_path : Bytes
  pub expires_at : ℕ

pub data ConfirmationError : Type 0 where
  missing mismatch expired : ConfirmationError

-- The errors of `CoreError` that `issue` returns.
pub data IssueError : Type 0 where
  random io : IssueError

pub record Host : Type 0 where
  -- `getrandom::fill` of 32 bytes
  pub fill : Option Bytes
  pub hex_encode : Bytes → Bytes
  pub join : Bytes → Bytes → Bytes
  pub create_dir_all : Bytes → Option (Unit {0})
  pub set_directory_permissions : Bytes → Option (Unit {0})
  pub open_truncated : Bytes → Option (Unit {0})
  pub set_file_permissions : Bytes → Option (Unit {0})
  pub write_all : Bytes → Bytes → Option (Unit {0})

pub record DestructiveConfirmations : Type 0 where
  pub directory : Bytes
  pub pending : BTreeMap PendingToken

-- `DestructiveConfirmations::new`.
abbrev pub new_confirmations : Host → Bytes → DestructiveConfirmations
new_confirmations host state_directory = record {
  directory = host.join state_directory (text "confirmations");
  pending = [];
}

-- What `issue` does before it changes the map: the token, or the error.
unfoldable pub write_token :
    Host → DestructiveConfirmations → ConfirmationAction → Result IssueError Bytes
write_token host confirmations action = do
  bytes ← ok_or host.fill random
  let token = host.hex_encode bytes
  ok_or (host.create_dir_all confirmations.directory) io
  ok_or (host.set_directory_permissions confirmations.directory) io
  let token_path = host.join confirmations.directory (file_name action)
  ok_or (host.open_truncated token_path) io
  ok_or (host.set_file_permissions token_path) io
  ok_or (host.write_all token_path token) io
  ok token

unfoldable pub issue :
    Host
    → DestructiveConfirmations
    → ConfirmationAction
    → ℕ
    → DestructiveConfirmations × Result IssueError IssuedConfirmation
issue host confirmations action now = elim (write_token host confirmations action) [
  | err e ↦ (confirmations, err e)
  | ok token ↦
      let expires_at = saturating_add now confirmation_ttl_seconds in
      (
        record confirmations {
          pending =
              Assoc.insert (file_name action)
                (record { action = action; token = token; expires_at = expires_at })
                confirmations.pending;
        },
        ok (record {
          token_path = host.join confirmations.directory (file_name action);
          expires_at = expires_at;
        }),
      )
]

-- `consume_pending_token`: the entry is taken out, whatever becomes of it.
unfoldable pub consume_pending_token :
    BTreeMap PendingToken → ConfirmationAction → BTreeMap PendingToken × Option PendingToken
consume_pending_token pending action =
    (Assoc.remove (file_name action) pending, Assoc.lookup (file_name action) pending)

-- The tests of `redeem` on the entry that was taken out.
unfoldable pub judge :
    Option PendingToken → ConfirmationAction → Bytes → ℕ → Result ConfirmationError (Unit {0})
judge none action presented now = err missing
judge (some entry) action presented now = do
  reject_if (leb entry.expires_at now) expired
  reject_if (not (action_eq entry.action action) || not (bytes_eq entry.token presented)) mismatch
  ok tt

unfoldable pub redeem :
    DestructiveConfirmations
    → ConfirmationAction
    → Bytes
    → ℕ
    → DestructiveConfirmations × Result ConfirmationError (Unit {0})
redeem confirmations action presented now =
    let (pending, removed) = consume_pending_token confirmations.pending action in
    (record confirmations { pending = pending }, judge removed action presented now)
