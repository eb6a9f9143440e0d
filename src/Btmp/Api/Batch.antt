-- ===== src/Btmp/Api/Batch.antt =====
-- What create_temp_bans_batch sends, whether it succeeds or fails.
use mathlib.Core.List.{append_assoc, append-nil}
use xdp_firewall.Prelude.{
  ℕ, ◌+◌, ◌≤◌, ◌<◌, ◌≡◌, refl, sym, ap, ◌∙◌, ◌⊎◌, inl, inr, Option, none, some, err_not_ok, subst,
  List, [], ◌∷◌, ◌++◌, map, arith, length, length-append, All, Result, ok, err, Error,
  submitted_before,
}
use xdp_firewall.Exec.{continue}
use xdp_firewall.Btmp.Api.{
  CreateTempBanItem, HttpRequest, Http, ApiClient, chunks, or_context, read_created, post_chunk,
  create_temp_ban_chunk, create_chunks, create_temp_bans_batch,
}
use xdp_firewall.Btmp.Api.Chunks.{concat, concat-chunks, chunks-sizes}

module _ (http : Http) (client : ApiClient) where
  open http use {Body, send}

  abbrev HasCreated : Option (ℕ × Body) → Type 0
  HasCreated answer = (body : Body) × (answer ≡ some (201, body))

  -- The server's answer to a request that submits a part, after the requests before it, is 201.
  abbrev IsCreated : List HttpRequest → List CreateTempBanItem → Type 0
  IsCreated requests part = HasCreated (send requests (post_chunk http client part))

  -- The parts, sent one after the other, are each answered with 201.
  abbrev AllCreated : List HttpRequest → List (List CreateTempBanItem) → Type 0
  AllCreated requests [] = Unit
  AllCreated requests (part ∷ parts) =
      IsCreated requests part × AllCreated (requests ++ post_chunk http client part ∷ []) parts

  -- All parts were sent and accepted.
  pub record Accepted (before : ℕ) (parts : List (List CreateTempBanItem))
      (requests : List HttpRequest) (outcome : Result ℕ × List HttpRequest) : Type 0 where
    pub result : outcome.0 ≡ ok (before + length (concat parts))
    pub sent : outcome.1 ≡ requests ++ map (post_chunk http client) parts
    pub answered : AllCreated requests parts

  -- One part failed: those before it were accepted, and those behind it were not sent.
  pub record Failed (before : ℕ) (parts : List (List CreateTempBanItem))
      (requests : List HttpRequest) (outcome : Result ℕ × List HttpRequest) : Type 0 where
    pub done : List (List CreateTempBanItem)
    pub failed : List CreateTempBanItem
    pub rest : List (List CreateTempBanItem)
    pub reason : Error
    pub parts_lem : parts ≡ done ++ failed ∷ rest
    pub result : outcome.0 ≡ err (submitted_before (before + length (concat done)) reason)
    pub sent : outcome.1 ≡ requests ++ map (post_chunk http client) (done ++ failed ∷ [])
    pub answered : AllCreated requests done
    pub refused : ¬ IsCreated (requests ++ map (post_chunk http client) done) failed

  abbrev pub Outcome :
      ℕ → List (List CreateTempBanItem) → List HttpRequest → Result ℕ × List HttpRequest → Type 0
  Outcome before parts requests outcome =
      Accepted before parts requests outcome ⊎ Failed before parts requests outcome

  read_created-ok :
      (count n : ℕ) (answer : Option (ℕ × Body))
      → read_created http client count answer ≡ ok n
      → (n ≡ count) × HasCreated answer
  read_created-ok count n none h = absurd (cc)
  read_created-ok count n (some (status, body)) h =
      let (e, c) : (status ≡ 201) × (n ≡ count) = ground arith in
      (c, (body, ap (λ s. some (s, body)) e))

  read_created-err :
      (count : ℕ) (answer : Option (ℕ × Body)) (e : Error)
      → read_created http client count answer ≡ err e
      → ¬ HasCreated answer
  read_created-err count answer e h (body, k) =
      err_not_ok (sym h ∙ ap (read_created http client count) k)

  later :
      (before : ℕ) (part : List CreateTempBanItem) (parts : List (List CreateTempBanItem))
      (requests : List HttpRequest) (outcome : Result ℕ × List HttpRequest)
      → IsCreated requests part
      → Outcome (before + length part) parts (requests ++ post_chunk http client part ∷ []) outcome
      → Outcome before (part ∷ parts) requests outcome
  later before part parts requests outcome c (inl a) = inl (record {
    result = a.result ∙ ap ok (omega (arith, length-append {0} part (concat parts)));
    sent =
        a.sent
        ∙ append_assoc requests (post_chunk http client part ∷ [])
            (map (post_chunk http client) parts);
    answered = (c, a.answered);
  })
  later before part parts requests outcome c (inr f) = inr (record {
    done = part ∷ f.done;
    failed = f.failed;
    rest = f.rest;
    reason = f.reason;
    parts_lem = ap (λ l. part ∷ l) f.parts_lem;
    result =
        f.result
        ∙ ap (λ n. err (submitted_before n f.reason))
            (omega (arith, length-append {0} part (concat f.done)));
    sent =
        f.sent
        ∙ append_assoc requests (post_chunk http client part ∷ [])
            (map (post_chunk http client) (f.done ++ f.failed ∷ []));
    answered = (c, f.answered);
    refused =
        subst (λ sent. ¬ IsCreated sent f.failed)
          (append_assoc requests (post_chunk http client part ∷ [])
            (map (post_chunk http client) f.done))
          f.refused;
  })

  -- what follows the result of a part
  abbrev after_part :
      ℕ → List (List CreateTempBanItem) → Result ℕ → List HttpRequest → Result ℕ × List HttpRequest
  after_part before parts r requests =
      continue (or_context (submitted_before before) r)
        (λ n. create_chunks http client (before + n) parts) requests

  create_chunks-cons :
      (before : ℕ) (part : List CreateTempBanItem) (parts : List (List CreateTempBanItem))
      (requests : List HttpRequest)
      → create_chunks http client before (part ∷ parts) requests
        ≡ after_part before parts
            (read_created http client (length part) (send requests (post_chunk http client part)))
            (requests ++ post_chunk http client part ∷ [])
  unfolding create_chunks create_temp_ban_chunk
  create_chunks-cons before part parts requests = refl

  create_chunks-nil :
      (before : ℕ) (requests : List HttpRequest)
      → Accepted before [] requests (create_chunks http client before [] requests)
  unfolding create_chunks
  create_chunks-nil before requests = record {
    result = ap ok (omega arith);
    sent = sym (append-nil requests);
    answered = tt;
  }

  after_part-Outcome :
      (before : ℕ) (part : List CreateTempBanItem) (parts : List (List CreateTempBanItem))
      (requests : List HttpRequest) (r : Result ℕ)
      → ((n : ℕ) → r ≡ ok n → (n ≡ length part) × IsCreated requests part)
      → ((e : Error) → r ≡ err e → ¬ IsCreated requests part)
      → Outcome (before + length part) parts (requests ++ post_chunk http client part ∷ []) (
          create_chunks http client
            (before + length part)
            parts
            (requests ++ post_chunk http client part ∷ []))
      → Outcome before
          (part ∷ parts)
          requests
          (after_part before parts r (requests ++ post_chunk http client part ∷ []))
  after_part-Outcome before part parts requests (ok n) accepted refused ih =
      rw ((accepted n refl).0) (
        later before part parts requests
          (create_chunks http client (before + length part) parts
            (requests ++ post_chunk http client part ∷ []))
          (accepted n refl).1 ih)
  after_part-Outcome before part parts requests (err e) accepted refused ih = inr (record {
    done = [];
    failed = part;
    rest = parts;
    reason = e;
    parts_lem = refl;
    result = ap (λ n. err (submitted_before n e)) (omega arith);
    sent = refl;
    answered = tt;
    refused = subst (λ sent. ¬ IsCreated sent part) (sym (append-nil requests)) (refused e refl);
  })

  create_chunks-Outcome :
      (before : ℕ) (parts : List (List CreateTempBanItem)) (requests : List HttpRequest)
      → Outcome before parts requests (create_chunks http client before parts requests)
  create_chunks-Outcome before [] requests = inl (create_chunks-nil before requests)
  create_chunks-Outcome before (part ∷ parts) requests =
      rw (create_chunks-cons before part parts requests) (
        after_part-Outcome before part parts requests
          (read_created http client (length part) (send requests (post_chunk http client part)))
          (λ n. read_created-ok (length part) n (send requests (post_chunk http client part)))
          (λ e. read_created-err (length part) (send requests (post_chunk http client part)) e)
          (create_chunks-Outcome (before + length part) parts
            (requests ++ post_chunk http client part ∷ [])))

  -- A batch is cut into chunks of 1 to 500 items that together are the items in their order. Either
  -- all chunks were sent in turn, the server answered each with the status 201, and the result is the
  -- number of items; or one chunk got another answer or none, the chunks before it were each answered
  -- with 201, none behind it was sent, and the error carries the number of the items in those before.
  pub create_temp_bans_batch_lem :
      (items : List CreateTempBanItem) (requests : List HttpRequest)
      → (concat (chunks items) ≡ items)
        × All (λ chunk. (0 < length chunk) × (length chunk ≤ 500)) (chunks items)
        × Outcome 0 (chunks items) requests (create_temp_bans_batch http client items requests)
  unfolding create_temp_bans_batch
  create_temp_bans_batch_lem items requests =
      (concat-chunks items, chunks-sizes items, create_chunks-Outcome 0 (chunks items) requests)
