-- ===== src/Btmp/Api/Pages.antt =====
-- The loop of list_temp_ban_cidrs over the pages: it ends, and reads them all.
use mathlib.Core.List.{append_assoc, append-nil}
use xdp_firewall.Prelude.{
  ℕ, zero, suc, ◌+◌, ◌-◌, ◌^◌, ◌≤◌, ◌<◌, ◌≡◌, ◌≢◌, refl, sym, ap, ◌∙◌, inl, inr, true, false,
  Option, none, some, List, [], ◌∷◌, ◌++◌, String, arith, if◌then◌else◌, Bool-cases, Result, ok,
  err, foreign, out_of_fuel,
}
use xdp_firewall.Text.{Text}
use xdp_firewall.Exec.{pure, continue}
use xdp_firewall.Btmp.Api.{
  Page, HttpRequest, get, Http, HttpLaws, ApiClient, or_fail, no_items, is_success, read_page,
  page_url, is_last, list_from, list_temp_ban_cidrs,
}

module _ (http : Http) (client : ApiClient) where
  open http use {Body, send, decode_page}

  -- One page fails with an error of the library or of the server, or it is decoded.
  abbrev PageResult : Result Page → Type 0
  PageResult (err e) = (what : String) × (e ≡ foreign what)
  PageResult (ok page) = (body : Body) × (decode_page body ≡ some page)

  decoded :
      (body : Body) (page : Option Page)
      → decode_page body ≡ page
      → PageResult (or_fail "failed to decode /temp-bans response" page)
  decoded body none e = ("failed to decode /temp-bans response", refl)
  decoded body (some page) e = (body, e)

  read_page-PageResult : (answer : Option (ℕ × Body)) → PageResult (read_page http client answer)
  read_page-PageResult none = ("GET /temp-bans failed", refl)
  read_page-PageResult (some (status, body)) = elim (Bool-cases (is_success status)) [
    | inl good ↦ rw good (decoded body (decode_page body) refl)
    | inr bad ↦ rw bad ("GET /temp-bans returned an error", refl)
  ]

  -- The next round on the result of a page.
  abbrev pub next_round :
      ℕ → ℕ → List Text → Result Page → List HttpRequest → Result (List Text) × List HttpRequest
  next_round fuel page cidrs (err e) requests = (err e, requests)
  next_round fuel page cidrs (ok body) requests =
      (if is_last http client page body
          then pure (cidrs ++ body.items)
          else list_from http client fuel (page + 1) (cidrs ++ body.items))
        requests

  abbrev pub page_answer : ℕ → List HttpRequest → Option (ℕ × Body)
  page_answer page requests = send requests (get (page_url http client page) client.token)

  pub list_from-suc :
      (fuel page : ℕ) (cidrs : List Text) (requests : List HttpRequest)
      → list_from http client (suc fuel) page cidrs requests
        ≡ next_round fuel page cidrs
            (read_page http client (page_answer page requests))
            (requests ++ get (page_url http client page) client.token ∷ [])
  unfolding list_from
  list_from-suc fuel page cidrs requests =
      elim (read_page http client (page_answer page requests))
        as (λ r.
          continue r
            (λ body.
              if is_last http client page body
              then pure (cidrs ++ body.items)
              else list_from http client fuel (page + 1) (cidrs ++ body.items))
            (requests ++ get (page_url http client page) client.token ∷ [])
          ≡ next_round fuel page cidrs r
              (requests ++ get (page_url http client page) client.token ∷ [])) [
                | err e ↦ refl
                | ok body ↦ refl
              ]

  module _ (laws : HttpLaws http) where
    next_round_ends :
        (fuel page : ℕ) (cidrs : List Text) (r : Result Page) (requests : List HttpRequest)
        → PageResult r
        → 2 ^ 64 ≤ page + suc fuel
        → ((cidrs' : List Text) (requests' : List HttpRequest)
            → 0 < fuel
            → (list_from http client fuel (page + 1) cidrs' requests').0 ≢ err out_of_fuel)
        → (next_round fuel page cidrs r requests).0 ≢ err out_of_fuel
    next_round_ends fuel page cidrs (err e) requests (what, is) h ih = λ k. cc
    next_round_ends fuel page cidrs (ok body) requests (raw, e) h ih =
        elim (Bool-cases (is_last http client page body)) [
          | inl last ↦ rw last (λ k. cc)
          | inr more ↦
              rw more
                (ih (cidrs ++ body.items) requests (let small = laws raw body e in ground arith))
        ]

    list_from_ends :
        (fuel page : ℕ) (cidrs : List Text) (requests : List HttpRequest)
        → 0 < fuel
        → 2 ^ 64 ≤ page + fuel
        → (list_from http client fuel page cidrs requests).0 ≢ err out_of_fuel
    list_from_ends zero page cidrs requests p h = absurd (omega arith)
    list_from_ends (suc fuel) page cidrs requests p h =
        rw (list_from-suc fuel page cidrs requests) (
          next_round_ends fuel page cidrs (read_page http client (page_answer page requests))
            (requests ++ get (page_url http client page) client.token ∷ [])
            (read_page-PageResult (page_answer page requests)) (omega arith)
            (λ cidrs' requests' q. list_from_ends fuel (page + 1) cidrs' requests' q (omega arith)))

    -- The listing of the temporary bans ends whatever the server answers: within the 2 ^ 64 rounds
    -- that the page number can count, it returns the set or an error of a request.
    pub list_temp_ban_cidrs_ends :
        (requests : List HttpRequest)
        → (list_temp_ban_cidrs http client requests).0 ≢ err out_of_fuel
    unfolding list_temp_ban_cidrs
    list_temp_ban_cidrs_ends requests =
        list_from_ends (2 ^ 64) 1 [] requests (omega arith) (omega arith)

  -- The server has `last` pages, and answers each request for one with it.
  pub record Serves (pages : ℕ → Page) (last : ℕ) : Type 0 where
    pub answers :
        (k : ℕ) (requests : List HttpRequest)
        → 1 ≤ k
        → k ≤ last
        → read_page http client (send requests (get (page_url http client k) client.token))
          ≡ ok (pages k)
    pub total : (k : ℕ) → (pages k).total_pages ≡ last
    pub filled : (k : ℕ) → 1 ≤ k → k < last → no_items (pages k).items ≡ false

  -- The items of `count` pages from `k` on.
  abbrev pub items_from : (ℕ → Page) → ℕ → ℕ → List Text
  items_from pages k zero = []
  items_from pages k (suc count) = (pages k).items ++ items_from pages (k + 1) count

  list_from-Serves :
      (pages : ℕ → Page) (last fuel k left : ℕ) (cidrs : List Text) (requests : List HttpRequest)
      → Serves pages last
      → 1 ≤ k
      → last ≡ k + left
      → left < fuel
      → (list_from http client fuel k cidrs requests).0
        ≡ ok (cidrs ++ items_from pages k (suc left))
  list_from-Serves pages last zero k left cidrs requests s p e h = absurd (omega arith)
  list_from-Serves pages last (suc fuel) k zero cidrs requests s p e h =
      let done : is_last http client k (pages k) ≡ true = let t = s.total k in ground arith in
      rw (list_from-suc fuel k cidrs requests, s.answers k requests p (omega arith), done)
        (ap (λ l. ok (cidrs ++ l)) (sym (append-nil (pages k).items)))
  list_from-Serves pages last (suc fuel) k (suc left) cidrs requests s p e h =
      let more : is_last http client k (pages k) ≡ false =
        let t = s.total k in let f = s.filled k p (omega arith) in ground arith in
      rw (list_from-suc fuel k cidrs requests, s.answers k requests p (omega arith), more)
        (list_from-Serves pages last fuel (k + 1) left (cidrs ++ (pages k).items)
            (requests ++ get (page_url http client k) client.token ∷ []) s (omega arith)
            (omega arith) (omega arith)
          ∙ ap ok (append_assoc cidrs (pages k).items (items_from pages (k + 1) (suc left))))

  -- Against a server that has up to 2 ^ 64 - 1 pages, none but the last empty, and answers every
  -- request for one of them, the listing returns the items of all pages, in their order.
  pub list_temp_ban_cidrs_complete :
      (pages : ℕ → Page) (last : ℕ) (requests : List HttpRequest)
      → Serves pages last
      → 1 ≤ last
      → last < 2 ^ 64
      → (list_temp_ban_cidrs http client requests).0 ≡ ok (items_from pages 1 last)
  unfolding list_temp_ban_cidrs
  list_temp_ban_cidrs_complete pages last requests s p h =
      let whole : last ≡ suc (last - 1) = omega arith in
      list_from-Serves pages last (2 ^ 64) 1 (last - 1) [] requests s (omega arith) (omega arith)
        (omega arith)
      ∙ ap (λ n. ok (items_from pages 1 n)) (sym whole)
