-- ===== src/Examples/Confirmations.antt =====
-- A confirmation.
use oma_chat.Base.{
  ok_or, ℕ, ◌<◌, ◌≡◌, refl, ◌↔◌, ◌++◌, some, ok, err, replicate, Bytes, text, saturating_add,
}
use oma_chat.Daemon.Confirmation.{
  file_name, Host, DestructiveConfirmations, IssuedConfirmation, new_confirmations, panic_erase,
  issue, redeem, missing, write_token,
}
use oma_chat.Daemon.Confirmation.Tokens.{IsRedeemable, redeem_once, redeem-issue}
use oma_chat.Examples.Libraries.{hex}

abbrev host : Host
host = record {
  fill = some (replicate 32 171);
  hex_encode = hex;
  join = λ a b. a ++ (text "/" ++ b);
  create_dir_all = λ d. some tt;
  set_directory_permissions = λ d. some tt;
  open_truncated = λ p. some tt;
  set_file_permissions = λ p. some tt;
  write_all = λ p b. some tt;
}

abbrev idle : DestructiveConfirmations
idle = new_confirmations host (text "/state")

abbrev issued : IssuedConfirmation
issued = record { token_path = text "/state/confirmations/panic.token"; expires_at = 1120 }

issue_panic : (issue host idle panic_erase 1000).1 ≡ ok issued
unfolding issue write_token ok_or file_name
issue_panic = refl

redeem-issue_example :
    (token : Bytes) × (write_token host idle panic_erase ≡ ok token)
    × (host.write_all (text "/state/confirmations/panic.token") token ≡ some tt)
    × ((presented : Bytes) (now : ℕ)
        → ((redeem (issue host idle panic_erase 1000).0 panic_erase presented now).1 ≡ ok tt)
          ↔ ((token ≡ presented) × (now < saturating_add 1000 120)))
redeem-issue_example = redeem-issue host idle panic_erase 1000 issued issue_panic

redeem_once_example :
    (((redeem (issue host idle panic_erase 1000).0 panic_erase (hex (replicate 32 171)) 1119).1
        ≡ ok tt)
      ↔ IsRedeemable (issue host idle panic_erase 1000).0 panic_erase (hex (replicate 32 171)) 1119)
    × ((redeem
          (redeem (issue host idle panic_erase 1000).0 panic_erase (hex (replicate 32 171)) 1119).0
          panic_erase
          (hex (replicate 32 171))
          1119).1
        ≡ err missing)
redeem_once_example =
    redeem_once (issue host idle panic_erase 1000).0 panic_erase (hex (replicate 32 171))
      (hex (replicate 32 171)) 1119 1119
