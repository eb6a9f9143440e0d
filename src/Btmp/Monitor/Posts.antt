-- ===== src/Btmp/Monitor/Posts.antt =====
-- The items that the requests of a call carry.
use native.Mathlib.Nat.{zero-add}
use mathlib.Core.List.{append_assoc, append-nil}
use xdp_firewall.Prelude.{
  ℕ, zero, suc, ◌+◌, ◌≡◌, refl, sym, ap, subst, ◌^◌, ◌∙◌, inl, inr, List, [], ◌∷◌, ◌++◌, map,
  length, Bool-cases, Result, ok, err, err_not_ok, ok-injective, ok-injective,
}
use xdp_firewall.Text.{Text}
use xdp_firewall.Btmp.Api.{
  CreateTempBanItem, Page, HttpRequest, get, post, Http, ApiClient, chunks, post_chunk, page_url,
  read_page, is_last, list_from, list_temp_ban_cidrs, create_temp_bans_batch,
}
use xdp_firewall.Btmp.Api.Chunks.{concat}
use xdp_firewall.Btmp.Api.Batch.{Outcome, create_temp_bans_batch_lem}
use xdp_firewall.Btmp.Api.Pages.{next_round, page_answer, list_from-suc}

-- The items of the requests that submit bans.
abbrev pub posted : List HttpRequest → List CreateTempBanItem
posted [] = []
posted (get url token ∷ requests) = posted requests
posted (post url token items ∷ requests) = items ++ posted requests

pub posted-append : (xs ys : List HttpRequest) → posted (xs ++ ys) ≡ posted xs ++ posted ys
posted-append [] ys = refl
posted-append (get url token ∷ xs) ys = posted-append xs ys
posted-append (post url token items ∷ xs) ys =
    ap (λ l. items ++ l) (posted-append xs ys) ∙ sym (append_assoc items (posted xs) (posted ys))

concat-append : (xs ys : List (List CreateTempBanItem)) → concat (xs ++ ys) ≡ concat xs ++ concat ys
concat-append [] ys = refl
concat-append (x ∷ xs) ys =
    ap (λ l. x ++ l) (concat-append xs ys) ∙ sym (append_assoc x (concat xs) (concat ys))

concat-regroup :
    (done : List (List CreateTempBanItem)) (failed : List CreateTempBanItem)
    (rest : List (List CreateTempBanItem))
    → concat (done ++ failed ∷ []) ++ concat rest ≡ concat (done ++ failed ∷ rest)
concat-regroup done failed rest = simp (concat-append, append_assoc, append-nil)

module _ (http : Http) (client : ApiClient) where
  posted-map :
      (parts : List (List CreateTempBanItem))
      → posted (map (post_chunk http client) parts) ≡ concat parts
  posted-map [] = refl
  posted-map (p ∷ parts) = ap (λ l. p ++ l) (posted-map parts)

  list_round_gets :
      (fuel page : ℕ) (cidrs : List Text) (r : Result Page) (requests : List HttpRequest)
      → ((cidrs' : List Text)
          → (new : List HttpRequest) × ((list_from http client fuel (page + 1) cidrs' requests).1
              ≡ requests ++ new)
            × (posted new ≡ []))
      → (new : List HttpRequest) × ((next_round http client fuel page cidrs r requests).1
          ≡ requests ++ new)
        × (posted new ≡ [])
  list_round_gets fuel page cidrs (err e) requests ih = ([], sym (append-nil requests), refl)
  list_round_gets fuel page cidrs (ok body) requests ih =
      elim (Bool-cases (is_last http client page body)) [
        | inl last ↦ rw last ([], sym (append-nil requests), refl)
        | inr more ↦ rw more (ih (cidrs ++ body.items))
      ]

  list_from-zero :
      (page : ℕ) (cidrs : List Text) (requests : List HttpRequest)
      → (list_from http client zero page cidrs requests).1 ≡ requests ++ []
  unfolding list_from
  list_from-zero page cidrs requests = sym (append-nil requests)

  list_from_gets :
      (fuel page : ℕ) (cidrs : List Text) (requests : List HttpRequest)
      → (new : List HttpRequest) × ((list_from http client fuel page cidrs requests).1
          ≡ requests ++ new)
        × (posted new ≡ [])
  list_from_gets zero page cidrs requests = ([], list_from-zero page cidrs requests, refl)
  list_from_gets (suc fuel) page cidrs requests =
      let asked = get (page_url http client page) client.token in
      let (new, sent, none_posted) =
        list_round_gets fuel page cidrs
          (read_page http client (page_answer http client page requests)) (requests ++ asked ∷ [])
          (λ cidrs'. list_from_gets fuel (page + 1) cidrs' (requests ++ asked ∷ [])) in
      (
        asked ∷ new,
        rw (list_from-suc http client fuel page cidrs requests)
            (sent ∙ append_assoc requests (asked ∷ []) new),
        none_posted,
      )

  -- The listing submits nothing.
  pub list_temp_ban_cidrs_gets :
      (requests : List HttpRequest)
      → (new : List HttpRequest) × ((list_temp_ban_cidrs http client requests).1 ≡ requests ++ new)
        × (posted new ≡ [])
  unfolding list_temp_ban_cidrs
  list_temp_ban_cidrs_gets requests = list_from_gets (2 ^ 64) 1 [] requests

  -- What is submitted is a part of the items from their start, and all of them after a success.
  pub record Submits (items : List CreateTempBanItem) (before : List HttpRequest)
      (outcome : Result ℕ × List HttpRequest) : Type 0 where
    pub new : List HttpRequest
    pub rest : List CreateTempBanItem
    pub sent : outcome.1 ≡ before ++ new
    pub part : posted new ++ rest ≡ items
    pub whole : (n : ℕ) → outcome.0 ≡ ok n → (rest ≡ []) × (n ≡ length items)

  outcome-Submits :
      (parts : List (List CreateTempBanItem)) (before : List HttpRequest)
      (outcome : Result ℕ × List HttpRequest)
      → Outcome http client 0 parts before outcome
      → Submits (concat parts) before outcome
  outcome-Submits parts before outcome (inl a) = record {
    new = map (post_chunk http client) parts;
    rest = [];
    sent = a.sent;
    part = append-nil (posted (map (post_chunk http client) parts)) ∙ posted-map parts;
    whole = λ n e. (refl, ok-injective (sym e ∙ a.result) ∙ zero-add (length (concat parts)));
  }
  outcome-Submits parts before outcome (inr f) = record {
    new = map (post_chunk http client) (f.done ++ f.failed ∷ []);
    rest = concat f.rest;
    sent = f.sent;
    part =
        ap (λ l. l ++ concat f.rest) (posted-map (f.done ++ f.failed ∷ []))
        ∙ concat-regroup f.done f.failed f.rest
        ∙ ap concat (sym f.parts_lem);
    whole = λ n e. absurd (err_not_ok (sym f.result ∙ e));
  }

  pub create_temp_bans_batch-Submits :
      (items : List CreateTempBanItem) (requests : List HttpRequest)
      → Submits items requests (create_temp_bans_batch http client items requests)
  create_temp_bans_batch-Submits items requests =
      let (whole, sizes, outcome) = create_temp_bans_batch_lem http client items requests in
      subst (λ l. Submits l requests (create_temp_bans_batch http client items requests)) whole
        (outcome-Submits (chunks items) requests (create_temp_bans_batch http client items requests)
          outcome)
