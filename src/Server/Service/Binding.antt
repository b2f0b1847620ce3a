-- ===== src/Server/Service/Binding.antt =====
-- What binds a Nostr key to a handle in crates/omachat-server/src/service.rs.
use oma_chat.Base.{
  ℕ, ◌+◌, ◌-◌, ◌≤◌, ◌≡◌, refl, Bool, true, false, ◌&&◌, ==_iff, some, [], ◌∷◌, ◌++◌, Result, ok,
  err, arith, length, leb, anyb, saturating_add, Bytes, bytes_eq, bytes_eq_refl, Bool-cases,
  Option-cases, Result-cases, inl, inr, ap, subst, ◌∙◌, >>=-elim, ok_or-elim, reject_if-elim,
  ok_or-eq-ok, ok-injective, not-eq-false, reject_if, ok_or,
}
use oma_chat.Nostr.Urls.{is_none}
use oma_chat.Server.Transcripts.{nostr_bind_transcript}
use oma_chat.Server.Storage
use oma_chat.Server.Storage.{
  Storage, StorageError, AccountRow, AccountRecord, NonceRow, account_row, find_by, has_value,
  id_of, pubkey_of, handle_of, update, set_pubkey, is_taken, drop_before, to_i64,
  remember_proof_nonce, nostr_pubkey, nostr_for_handle, stored_key, fixed_key,
}
use oma_chat.Server.Storage.Rows.{find_by-update, find_by_unique}
use oma_chat.Server.Storage.Integrity.{
  IsStorage, bind_nostr-IsStorage, remember_proof_nonce-IsStorage,
}
use oma_chat.Server.Service
use oma_chat.Server.Service.{
  Service, ServiceLib, ServiceConfig, BindProof, Reply, ErrorCode, answer, account, decode_sized,
  decode_nostr_key, verify_device, verify_nostr, fresh_timestamp, check_bind, commit_bind,
  invalid_request, invalid_handle_code, storage_error,
}
use oma_chat.Server.Service.Handles.{Holds}

-- What has been checked of a proof.
pub record IsProved (lib : ServiceLib) (service : Service) (id device : Bytes) (proof : BindProof)
    (now : ℕ) (handle key nonce : Bytes) : Type 0 where
  pub claimed : Holds id handle service.storage
  pub is_key : (lib.hex_decode proof.nostr_public_key ≡ some key) × (length key ≡ 32)
  pub is_nonce : (lib.hex_decode proof.nonce ≡ some nonce) × (length nonce ≡ 32)
  pub recent : (proof.timestamp ≤ saturating_add now 300) × (now ≤ proof.timestamp + 300)
  pub device_signature : Bytes
  pub device_signed :
      lib.verify_strict device
        (nostr_bind_transcript service.config.server_public_key id handle key nonce proof.timestamp)
        device_signature
      ≡ true
  pub nostr_signature : Bytes
  pub nostr_signed :
      lib.verify_raw key
        (nostr_bind_transcript service.config.server_public_key id handle key nonce proof.timestamp)
        nostr_signature
      ≡ true

decode_sized-eq-ok :
    (lib : ServiceLib) (size : ℕ) (value bytes : Bytes)
    → decode_sized lib size value ≡ ok bytes
    → (lib.hex_decode value ≡ some bytes) × (length bytes ≡ size)
unfolding decode_sized
decode_sized-eq-ok lib size value bytes h = ok_or-elim (lib.hex_decode value) _ _ h λ b decoded h₁.
    reject_if-elim _ _ _ h₁ λ sized built.
      subst (λ b. (lib.hex_decode value ≡ some b) × (length b ≡ size)) (ok-injective built)
        (decoded, (==_iff _ _).0 (not-eq-false _ sized))

pub fresh_timestamp-eq-ok :
    (timestamp now : ℕ) (u : Unit {0})
    → fresh_timestamp timestamp now ≡ ok u
    → (timestamp ≤ saturating_add now 300) × (now ≤ timestamp + 300)
unfolding fresh_timestamp reject_if
fresh_timestamp-eq-ok timestamp now u h =
    elim (Bool-cases (leb timestamp (saturating_add now 300) && leb (now - 300) timestamp)) [
      | inl fine ↦ (ground (arith, fine), ground (arith, fine))
      | inr stale ↦ (let impossible = rw (fresh_timestamp, stale) at h in cc)
    ]

account-Holds :
    (service : Service) (id handle : Bytes) (known : AccountRecord)
    → account service id ≡ ok known
    → known.handle ≡ some handle
    → Holds id handle service.storage
unfolding account Storage.account
account-Holds service id handle known h held =
    elim (Option-cases (find_by id_of id service.storage.accounts)) [
      | inl nobody ↦
          let there : Storage.account service.storage id ≡ some known = ok_or-eq-ok _ _ h in
          let impossible = rw (Storage.account, nobody) at there in cc
      | inr (row, found) ↦
          let there : Storage.account service.storage id ≡ some known = ok_or-eq-ok _ _ h in
          let here = rw (Storage.account, found) at there in
          let same : account_row row ≡ known = cc in
          (row, found, ap (λ (r : AccountRecord). r.handle) same ∙ held)
    ]

reject_if-eq-ok : {E : Type 0} (t : Bool) (e : E) (u : Unit {0}) → reject_if t e ≡ ok u → t ≡ false
unfolding reject_if
reject_if-eq-ok true e u h = cc
reject_if-eq-ok false e u h = refl

verify_device-eq-ok :
    (lib : ServiceLib) (key message signature : Bytes) (u : Unit {0})
    → verify_device lib key message signature ≡ ok u
    → lib.verify_strict key message signature ≡ true
unfolding verify_device
verify_device-eq-ok lib key message signature u h =
    reject_if-elim _ _ _ h λ valid h₁. not-eq-false _ (reject_if-eq-ok _ _ u h₁)

verify_nostr-eq-ok :
    (lib : ServiceLib) (key message signature : Bytes) (u : Unit {0})
    → verify_nostr lib key message signature ≡ ok u
    → lib.verify_raw key message signature ≡ true
unfolding verify_nostr
verify_nostr-eq-ok lib key message signature u h =
    let fine = not-eq-false _ (reject_if-eq-ok _ _ u h) in ground (arith, fine)

module _ (lib : ServiceLib) (service : Service) (id device : Bytes) (proof : BindProof)
    (now : ℕ) where
  check_bind-IsProved :
      (handle key nonce : Bytes)
      → check_bind lib service id device proof now ≡ ok (handle, key, nonce)
      → IsProved lib service id device proof now handle key nonce
  unfolding check_bind decode_nostr_key
  check_bind-IsProved handle key nonce h = >>=-elim (account service id) _ h λ known is_known h₁.
      ok_or-elim known.handle _ _ h₁ λ name named h₂.
        >>=-elim (decode_nostr_key lib proof.nostr_public_key) _ h₂ λ k is_key h₃.
          >>=-elim (decode_nostr_key lib proof.nonce) _ h₃ λ n is_nonce h₄.
            >>=-elim (decode_sized lib 64 proof.device_signature) _ h₄ λ ds d h₅.
              >>=-elim (decode_sized lib 64 proof.nostr_signature) _ h₅ λ ns e h₆.
                >>=-elim (fresh_timestamp proof.timestamp now) _ h₆ λ u fresh h₇.
                  >>=-elim (verify_device lib device _ ds) _ h₇ λ v device_signed h₈.
                    >>=-elim (verify_nostr lib k _ ns) _ h₈ λ w nostr_signed built.
                      subst
                        (λ (t : Bytes × Bytes × Bytes).
                          IsProved lib service id device proof now t.0 t.1 t.2)
                        (ok-injective built)
                        (record {
                          claimed = account-Holds service id name known is_known named;
                          is_key = decode_sized-eq-ok lib 32 proof.nostr_public_key k is_key;
                          is_nonce = decode_sized-eq-ok lib 32 proof.nonce n is_nonce;
                          recent = fresh_timestamp-eq-ok proof.timestamp now u fresh;
                          device_signature = ds;
                          device_signed = verify_device-eq-ok lib device _ ds v device_signed;
                          nostr_signature = ns;
                          nostr_signed = verify_nostr-eq-ok lib k _ ns w nostr_signed;
                        })

bound_row :
    (s : Storage) (id handle key : Bytes) (row : AccountRow)
    → IsStorage s
    → length key ≡ 32
    → find_by id_of id s.accounts ≡ some row
    → row.nostr_pubkey ≡ some key
    → row.handle ≡ some handle
    → (nostr_pubkey s id ≡ ok (some key)) × (nostr_for_handle s handle ≡ ok (some key))
unfolding nostr_pubkey nostr_for_handle stored_key fixed_key ok_or has_value
bound_row s id handle key row i size found bound held =
    let has : has_value row.handle handle ≡ true = rw (has_value, held) (bytes_eq_refl handle) in
    let unique = find_by_unique handle_of id handle s.accounts row (i.handles handle) found has in
    (
      rw (found, bound, (==_iff _ _).1 size) refl,
      rw (nostr_for_handle, unique, bound, (==_iff _ _).1 size) refl,
    )

-- What is bound is what is found, under the account and under its handle.
bind-nostr_pubkey :
    (s next : Storage) (id handle key : Bytes)
    → IsStorage s
    → length key ≡ 32
    → Holds id handle s
    → Storage.bind_nostr s id key ≡ (next, ok tt)
    → (nostr_pubkey next id ≡ ok (some key)) × (nostr_for_handle next handle ≡ ok (some key))
unfolding Storage.bind_nostr
bind-nostr_pubkey s next id handle key i size (row, found, held) h =
    elim (Bool-cases (is_none (find_by id_of id s.accounts))) [
      | inl nobody ↦ (let impossible = rw (Storage.bind_nostr, nobody) at h in cc)
      | inr there ↦ elim (Bool-cases (is_taken pubkey_of key id s.accounts)) [
        | inl taken ↦ (let impossible = rw (Storage.bind_nostr, there, taken) at h in cc)
        | inr free ↦
            let made = rw (Storage.bind_nostr, there, free) at h in
            let sound : IsStorage next =
              subst IsStorage (ap (λ (p : Storage × Result StorageError (Unit {0})). p.0) h)
                (bind_nostr-IsStorage s id key i) in
            let next_is : record s { accounts = update (set_pubkey (some key)) id s.accounts }
                ≡ next =
              ap (λ (p : Storage × Result StorageError (Unit {0})). p.0) made in
            let updated =
              find_by-update (set_pubkey (some key)) id id s.accounts row (λ row. refl) found in
            let here : find_by id_of id next.accounts ≡ some (set_pubkey (some key) row) =
              subst
                (λ (n : Storage). find_by id_of id n.accounts ≡ some (set_pubkey (some key) row))
                next_is (rw (bytes_eq_refl id) at updated) in
            bound_row next id handle key (set_pubkey (some key) row) sound size here refl held
      ]
    ]

abbrev pub is_nonce_of : Bytes → NonceRow → Bool
is_nonce_of nonce row = bytes_eq row.nonce nonce

pub remembered :
    (s : Storage) (nonce id : Bytes) (now skew : ℕ)
    → (remember_proof_nonce s nonce id now skew).1 ≡ ok tt
    → (anyb (is_nonce_of nonce) (drop_before (to_i64 (now - skew)) s.nostr_proof_nonces) ≡ false)
      × ((remember_proof_nonce s nonce id now skew).0 ≡ record s {
        nostr_proof_nonces =
            drop_before (to_i64 (now - skew)) s.nostr_proof_nonces
            ++ (record { nonce = nonce; account_id = id; seen_at = to_i64 now } ∷ []);
      })
unfolding remember_proof_nonce
remembered s nonce id now skew h =
    elim (Bool-cases
      (anyb (is_nonce_of nonce) (drop_before (to_i64 (now - skew)) s.nostr_proof_nonces))) [
        | inl replayed ↦ (let impossible = rw (remember_proof_nonce, replayed) at h in cc)
        | inr new ↦ (new, rw (remember_proof_nonce, new) refl)
      ]

answer-eq-ok :
    {A : Type 0} (service next : Service) (run : Storage × Result StorageError A)
    (reply : A → Reply) (r : Reply)
    → answer service run reply ≡ (next, ok r)
    → (a : A) × (run.1 ≡ ok a) × (record service { storage = run.0 } ≡ next)
unfolding answer
answer-eq-ok service next (storage, ok a) reply r h =
    (a, refl, ap (λ (p : Service × Result ErrorCode Reply). p.0) h)
answer-eq-ok service next (storage, err e) reply r h = cc

-- What a request has changed that bound a key.
pub record IsBound (lib : ServiceLib) (service next : Service) (id device : Bytes)
    (proof : BindProof) (now : ℕ) : Type 0 where
  pub handle : Bytes
  pub key : Bytes
  pub nonce : Bytes
  pub proved : IsProved lib service id device proof now handle key nonce
  pub unseen :
      anyb (is_nonce_of nonce) (drop_before (to_i64 (now - 300)) service.storage.nostr_proof_nonces)
      ≡ false
  pub bound : nostr_pubkey next.storage id ≡ ok (some key)
  pub published : nostr_for_handle next.storage handle ≡ ok (some key)

module _ (lib : ServiceLib) (service next : Service) (id device : Bytes) (proof : BindProof)
    (now : ℕ) (reply : Reply) (i : IsStorage service.storage) where
  commit_bind-IsBound :
      (handle key nonce : Bytes)
      → IsProved lib service id device proof now handle key nonce
      → commit_bind lib service id (handle, key, nonce) now ≡ (next, ok reply)
      → IsBound lib service next id device proof now
  unfolding commit_bind
  commit_bind-IsBound handle key nonce proved h =
      elim (Result-cases (remember_proof_nonce service.storage nonce id now 300).1) [
        | inr (e, replayed) ↦ (let impossible = rw (commit_bind, replayed) at h in cc)
        | inl (u, new) ↦
            let stored = (remember_proof_nonce service.storage nonce id now 300).0 in
            let (unseen, same) = remembered service.storage nonce id now 300 new in
            let (v, written, next_is) =
              answer-eq-ok service next _ _ reply (rw (commit_bind, new) at h) in
            let claimed : Holds id handle stored = rw same proved.claimed in
            let (bound, published) =
              bind-nostr_pubkey stored (Storage.bind_nostr stored id key).0 id handle key
                (remember_proof_nonce-IsStorage service.storage nonce id now 300 i) proved.is_key.1
                claimed
                (ap
                  (λ (r : Result StorageError (Unit {0})).
                    ((Storage.bind_nostr stored id key).0, r))
                  written) in
            record {
              handle = handle;
              key = key;
              nonce = nonce;
              proved = proved;
              unseen = unseen;
              bound = rw (← next_is) bound;
              published = rw (← next_is) published;
            }
      ]

  -- In sound tables, a request that binds a key has proved, by signatures of the session's device and
  -- of the key over one text that names the server, the account, its handle, the key, a nonce and a
  -- time at most 300 seconds from now, that both agree; the nonce was not seen in those 300 seconds;
  -- and the key is then found under the account and published under its handle.
  pub bind_nostr-IsBound :
      Service.bind_nostr lib service id device proof now ≡ (next, ok reply)
      → IsBound lib service next id device proof now
  unfolding Service.bind_nostr
  bind_nostr-IsBound h = elim (Result-cases (check_bind lib service id device proof now)) [
    | inr (e, refused) ↦ (let impossible = rw (Service.bind_nostr, refused) at h in cc)
    | inl ((handle, key, nonce), fine) ↦
        commit_bind-IsBound handle key nonce
          (check_bind-IsProved lib service id device proof now handle key nonce fine)
          (rw (Service.bind_nostr, fine) at h)
  ]
