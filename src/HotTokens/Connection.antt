-- ===== src/HotTokens/Connection.antt =====
-- bin/import_hot_token/main.rs `parse_clickhouse_connection_url`: the endpoint names no user.
use solana_snapshot_etl.Prelude.{
  ℕ, ◌≡◌, refl, subst, ◌∙◌, Bool, true, not, ◌||◌, [], Option, none, some, is_some, Bool-cases, inl,
  inr, Option-cases, arith, if◌then◌else◌,
}
use solana_snapshot_etl.Prelude.Order.{eqb, eq_of_eqb}
use solana_snapshot_etl.Prelude.Text.{Str}
use solana_snapshot_etl.Prelude.Result.{Result, ok, map_err, >>=-eq-ok}
use solana_snapshot_etl.Metadata.{str_ord}
use solana_snapshot_etl.HotTokens.{
  ClickhouseConnection, ImportError, invalid_url, invalid_username, Urls, ok_or, without_userinfo,
  decode_option, parse_clickhouse_connection_url,
}

-- What the crate documents: a name or a password that is taken away is gone, without a change of the
-- other, and a URL that is printed parses back to itself.
pub record IsLawful (urls : Urls) : Type 0 where
  pub set_username_clears :
      (u v : Urls.Url urls)
      → urls.set_username u [] ≡ some v
      → (urls.username v ≡ []) × (urls.password v ≡ urls.password u)
  pub set_password_clears :
      (u v : Urls.Url urls)
      → urls.set_password u none ≡ some v
      → (urls.password v ≡ none) × (urls.username v ≡ urls.username u)
  pub parse-to_string : (u : Urls.Url urls) → urls.parse (urls.to_string u) ≡ ok u

module _ (urls : Urls) (lawful : IsLawful urls) (percent_decode : Str → Result ℕ Str) where
  ok_or-eq-ok :
      {A : Type 0} (o : Option A) (why : ImportError) {a : A} → ok_or o why ≡ ok a → o ≡ some a
  ok_or-eq-ok none why e = cc
  ok_or-eq-ok (some b) why e = cc

  -- Whether the URL names a user or a password.
  abbrev has_userinfo : Urls.Url urls → Bool
  has_userinfo u = not (eqb ⦃o = str_ord⦄ (urls.username u) []) || is_some (urls.password u)

  clear_userinfo :
      (u : Urls.Url urls) {v : Urls.Url urls}
      → without_userinfo urls percent_decode true u ≡ ok v
      → (urls.username v ≡ []) × (urls.password v ≡ none)
  clear_userinfo u e =
      let (w, named, e1) = >>=-eq-ok (ok_or (urls.set_username u []) invalid_username) _ e in
      let (no_name, _) = lawful.set_username_clears u w (ok_or-eq-ok _ _ named) in
      let (no_word, kept) = lawful.set_password_clears w _ (ok_or-eq-ok _ _ e1) in
      (kept ∙ no_name, no_word)

  without_userinfo_lem :
      (u : Urls.Url urls) {v : Urls.Url urls}
      → without_userinfo urls percent_decode (has_userinfo u) u ≡ ok v
      → (urls.username v ≡ []) × (urls.password v ≡ none)
  without_userinfo_lem u e = elim (Bool-cases (eqb ⦃o = str_ord⦄ (urls.username u) [])) [
    | inr named ↦ clear_userinfo u (rw named at e)
    | inl anonymous ↦ elim (Option-cases (urls.password u)) [
      | inr (word, p) ↦ clear_userinfo u (rw (anonymous, p) at e)
      | inl p ↦
          let same = rw (anonymous, p) at e in
          let name = eq_of_eqb ⦃o = str_ord⦄ (urls.username u) [] anonymous in
          ground (arith, same, name, p)
    ]
  ]

  parse_anonymous :
      (v : Urls.Url urls)
      → urls.username v ≡ []
      → urls.password v ≡ none
      → parse_clickhouse_connection_url urls percent_decode (urls.to_string v)
        ≡ ok (record { endpoint = urls.to_string v; user = none; password = none })
  unfolding parse_clickhouse_connection_url
  parse_anonymous v no_name no_word = rw (lawful.parse-to_string v, no_name, no_word) refl

  -- The endpoint of a connection parses back to a URL without a user and without a password, so
  -- that parsing it as a connection again gives the same endpoint and no credentials.
  pub parse_clickhouse_connection_url_lem :
      (connection_url : Str) {c : ClickhouseConnection}
      → parse_clickhouse_connection_url urls percent_decode connection_url ≡ ok c
      → parse_clickhouse_connection_url urls percent_decode c.endpoint
        ≡ ok (record { endpoint = c.endpoint; user = none; password = none })
  unfolding parse_clickhouse_connection_url
  parse_clickhouse_connection_url_lem connection_url {c = c} e =
      let (u, parsed, e1) = >>=-eq-ok (map_err invalid_url (urls.parse connection_url)) _ e in
      let (user, _, e2) =
        >>=-eq-ok
          (decode_option urls percent_decode
            (if not (eqb ⦃o = str_ord⦄ (urls.username u) []) then some (urls.username u) else none))
          _ e1 in
      let (word, _, e3) = >>=-eq-ok (decode_option urls percent_decode (urls.password u)) _ e2 in
      let (v, stripped, e4) =
        >>=-eq-ok (without_userinfo urls percent_decode (has_userinfo u) u) _ e3 in
      let (no_name, no_word) = without_userinfo_lem u stripped in
      let same : urls.to_string v ≡ c.endpoint = ground (arith, e4) in
      subst
        (λ s.
          parse_clickhouse_connection_url urls percent_decode s
          ≡ ok (record { endpoint = s; user = none; password = none }))
        same (parse_anonymous v no_name no_word)
