-- ===== src/Daemon/Confirmation/Tokens.antt =====
-- The tokens of crates/omachatd/src/confirmation.rs are used once, in time, by who can read them.
use oma_chat.Base.{
  ok-injective, ok_or-elim, ℕ, ◌<◌, ◌≡◌, refl, ◌↔◌, true, none, some, Option, ok, err, arith, Bytes,
  bytes_eq_iff, bytes_eq_refl, reject_if, saturating_add, Result-cases, inl, inr, ap, ◌∙◌, sym,
  subst, if◌then◌else◌,
}
use oma_chat.Base.Assoc
use oma_chat.Base.Assoc.{lookup-insert, lookup-remove}
use oma_chat.Daemon.Confirmation.{
  Host, DestructiveConfirmations, ConfirmationAction, PendingToken, IssuedConfirmation, panic_erase,
  file_name, issue, redeem, judge, missing, action_eq, write_token, confirmation_ttl_seconds,
  consume_pending_token,
}

-- The token that is pending for the action is `presented`, and its time is not over.
abbrev pub IsRedeemable : DestructiveConfirmations → ConfirmationAction → Bytes → ℕ → Type 0
IsRedeemable confirmations action presented now =
    (entry : PendingToken) × (Assoc.lookup (file_name action) confirmations.pending ≡ some entry)
    × (entry.action ≡ action)
    × (entry.token ≡ presented)
    × (now < entry.expires_at)

some-injective : {a b : PendingToken} → ◌≡◌ {A = Option PendingToken} (some a) (some b) → a ≡ b
some-injective h = cc

action_eq_iff : (a b : ConfirmationAction) → (action_eq a b ≡ true) ↔ (a ≡ b)
unfolding action_eq
action_eq_iff panic_erase panic_erase = (λ h. refl, λ h. refl)

judge-some :
    (entry : PendingToken) (action : ConfirmationAction) (presented : Bytes) (now : ℕ)
    → (judge (some entry) action presented now ≡ ok tt)
      ↔ ((entry.action ≡ action) × (entry.token ≡ presented) × (now < entry.expires_at))
unfolding judge reject_if
judge-some entry action presented now = (
  λ h. (
    ground (arith, action_eq_iff entry.action action),
    ground (arith, bytes_eq_iff entry.token presented),
    ground arith,
  ),
  λ (a, t, n).
      ground (arith, action_eq_iff entry.action action, bytes_eq_iff entry.token presented),
)

judge_missing :
    (action : ConfirmationAction) (presented : Bytes) (now : ℕ)
    → judge none action presented now ≡ err missing
unfolding judge
judge_missing action presented now = refl

redeem_judged :
    (action : ConfirmationAction) (presented : Bytes) (now : ℕ) (found : Option PendingToken)
    → (judge found action presented now ≡ ok tt) ↔ (
        (entry : PendingToken) × (found ≡ some entry)
        × (entry.action ≡ action)
        × (entry.token ≡ presented)
        × (now < entry.expires_at))
unfolding judge
redeem_judged action presented now none =
    (λ h. ground arith, λ (entry, there, a, t, n). ground arith)
redeem_judged action presented now (some entry) = (
  λ h. (let (a, t, n) = (judge-some entry action presented now).0 h in (entry, refl, a, t, n)),
  λ (other, there, a, t, n). (judge-some entry action presented now).1 (
      subst
        (λ (e : PendingToken). (e.action ≡ action) × (e.token ≡ presented) × (now < e.expires_at))
        (sym (some-injective there)) (a, t, n)),
)

-- A redemption succeeds exactly if the presented token is pending for the action and its time is not
-- over; whatever its result, no token is pending for the action afterwards, so a second redemption
-- is refused as missing.
pub redeem_once :
    (confirmations : DestructiveConfirmations) (action : ConfirmationAction)
    (presented again : Bytes) (now later : ℕ)
    → (((redeem confirmations action presented now).1 ≡ ok tt)
        ↔ IsRedeemable confirmations action presented now)
      × ((redeem (redeem confirmations action presented now).0 action again later).1 ≡ err missing)
unfolding redeem consume_pending_token
redeem_once confirmations action presented again now later = (
  redeem_judged action presented now (Assoc.lookup (file_name action) confirmations.pending),
  rw
      (
        lookup-remove (file_name action) (file_name action) confirmations.pending,
        bytes_eq_refl (file_name action),
      )
      (judge_missing action again later),
)

write_token-write_all :
    (host : Host) (confirmations : DestructiveConfirmations) (action : ConfirmationAction)
    (token : Bytes)
    → write_token host confirmations action ≡ ok token
    → host.write_all (host.join confirmations.directory (file_name action)) token ≡ some tt
unfolding write_token
write_token-write_all host confirmations action token h =
    ok_or-elim host.fill _ _ h λ bytes drawn h₁. ok_or-elim _ _ _ h₁ λ u₁ made h₂.
      ok_or-elim _ _ _ h₂ λ u₂ closed_off h₃. ok_or-elim _ _ _ h₃ λ u₃ opened h₄.
        ok_or-elim _ _ _ h₄ λ u₄ owned h₅. ok_or-elim _ _ _ h₅ λ u₅ written built.
          subst
            (λ t. host.write_all (host.join confirmations.directory (file_name action)) t ≡ some tt)
            (ok-injective built) written

module _ (host : Host) (confirmations : DestructiveConfirmations) (action : ConfirmationAction)
    (issued_at : ℕ) (issued : IssuedConfirmation)
    (done : (issue host confirmations action issued_at).1 ≡ ok issued) where
  -- What a call that succeeded has put into the map.
  issue_stores :
      (token : Bytes) × (write_token host confirmations action ≡ ok token)
      × ((issue host confirmations action issued_at).0.pending
          ≡ Assoc.insert
              (file_name action)
              (record {
                action = action;
                token = token;
                expires_at = saturating_add issued_at confirmation_ttl_seconds;
              })
              confirmations.pending)
  unfolding issue
  issue_stores = elim (Result-cases (write_token host confirmations action)) [
    | inl (token, written) ↦ (token, written, ground arith)
    | inr (e, failed) ↦ ground arith
  ]

  abbrev entry_of : Bytes → PendingToken
  entry_of token = record {
    action = action;
    token = token;
    expires_at = saturating_add issued_at confirmation_ttl_seconds;
  }

  redeemable :
      (token presented : Bytes) (now : ℕ)
      → ((issue host confirmations action issued_at).0.pending
          ≡ Assoc.insert (file_name action) (entry_of token) confirmations.pending)
      → ((redeem (issue host confirmations action issued_at).0 action presented now).1 ≡ ok tt)
        ↔ ((token ≡ presented) × (now < saturating_add issued_at confirmation_ttl_seconds))
  redeemable token presented now put =
      let after = (issue host confirmations action issued_at).0 in
      let key = file_name action in
      let there : Assoc.lookup key after.pending ≡ some (entry_of token) =
        ap (Assoc.lookup key) put
        ∙ (lookup-insert key key (entry_of token) confirmations.pending
            ∙ ap (λ b. if b then some (entry_of token) else Assoc.lookup key confirmations.pending)
                (bytes_eq_refl key)) in
      let once = (redeem_once after action presented presented now now).0 in
      (
        λ h.
            let (entry, found, a, t, n) = once.0 h in
            let e = some-injective (sym there ∙ found) in
            (
              ap (λ (e : PendingToken). e.token) e ∙ t,
              subst (λ (e : PendingToken). now < e.expires_at) (sym e) n,
            ),
        λ (t, n). once.1 (entry_of token, there, refl, t, n),
      )

  issue_path : issued.token_path ≡ host.join confirmations.directory (file_name action)
  unfolding issue
  issue_path = elim (Result-cases (write_token host confirmations action)) [
    | inl (token, written) ↦
        ap (λ (i : IssuedConfirmation). i.token_path)
          (sym (ok-injective (rw (issue, written) at done)))
    | inr (e, failed) ↦ ground arith
  ]

  -- A successful call has written a token to the file that its answer names; that
  -- token is the only one that can be redeemed next, and it can be
  -- for 120 seconds from the call on, the end excluded (the sum stops at 2^64 - 1).
  pub redeem-issue :
      (token : Bytes) × (write_token host confirmations action ≡ ok token)
      × (host.write_all issued.token_path token ≡ some tt)
      × ((presented : Bytes) (now : ℕ)
          → ((redeem (issue host confirmations action issued_at).0 action presented now).1 ≡ ok tt)
            ↔ ((token ≡ presented) × (now < saturating_add issued_at confirmation_ttl_seconds)))
  redeem-issue =
      let (token, written, put) = issue_stores in
      (
        token,
        written,
        subst (λ path. host.write_all path token ≡ some tt) (sym issue_path)
            (write_token-write_all host confirmations action token written),
        λ presented now. redeemable token presented now put,
      )
