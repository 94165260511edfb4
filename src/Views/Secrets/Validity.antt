-- ===== src/Views/Secrets/Validity.antt =====
-- A secret that the page creates is one that the interface accepts.
use mathlib.Core.List.{reverse}
use slurpee.Prelude.{
  ℕ, suc, ◌≡◌, refl, ap, ◌∙◌, arith, Bool, true, false, not, ◌&&◌, inl, inr, Bool-cases, some, List,
  [], ◌∷◌, ◌++◌, is_empty, length, ltb, find, contains_if, find-append,
}
use slurpee.Prelude.Keys.{Bytes, codes, ◌==◌, ==_refl}
use slurpee.Model.{pg_uuid, uuid_eq, ApiSecret}
use slurpee.Db.Pages.{InsertApiSecretParams, new_secret}
use slurpee.External.{External}
use slurpee.Cache
use slurpee.Cache.{new_cache}
use slurpee.App.{Application, draw_id}
use slurpee.Secrets.{valid, validate_secret_by_id}
use slurpee.Secrets.Coherence.{stored}
use slurpee.Secrets.Generation.{generate_secret, encode_to_string}
use slurpee.Views.{Platform, Page, View, shown, Form, form_value, form_values, uuid_to_string}
use slurpee.Views.Secrets.{
  SecretsPage, if_hosts_shared, share_host, endpoints_from, associate_all, fail_create,
  insert_secret, make_secret, secret_create_handler,
}
use slurpee.Views.Secrets.Effects.{
  associate_all-IsIntact, insert_row, subscribers_row, render_idle, validate_stored,
}

module _ {Value : Type 0} (ext : External Value) (platform : Platform) where
  -- What a page shows of a secret is what the interface accepts.
  pub record Accepts (result : Page SecretsPage × Application) (n : ℕ) (text : Bytes)
      (secret : ApiSecret) : Type 0 where
    pub page : SecretsPage
    pub shows : result.0 ≡ shown 200 page
    pub shows_id : page.created_id ≡ ext.uuid_string n
    pub shows_text : page.plaintext ≡ text
    pub shows_no_error : page.error ≡ []
    pub accepted : (validate_secret_by_id ext n text result.1).0 ≡ valid secret

  insert_secret-Accepts :
      (a : Application) (name pattern : Bytes) (ids : List Bytes) (text hash : Bytes)
      → a.db.outages ≡ []
      → contains_if (λ s. s.id == pg_uuid (ext.new_v7 a.drawn)) a.db.api_secrets ≡ false
      → ext.compare_hash hash text ≡ true
      → Accepts
          (insert_secret ext platform name pattern ids text hash a)
          (ext.new_v7 a.drawn)
          text
          (record {
            id = pg_uuid (ext.new_v7 a.drawn);
            name = name;
            secret_hash = hash;
            subject_pattern = pattern;
            created_at = a.db.now;
          })
  unfolding insert_secret draw_id new_secret uuid_to_string Cache.flush
  insert_secret-Accepts a name pattern ids text hash up new matches =
      let n = ext.new_v7 a.drawn in
      let params : InsertApiSecretParams = record {
        id = pg_uuid n;
        name = name;
        secret_hash = hash;
        subject_pattern = pattern;
      } in
      let secret = new_secret params a.db.now in
      let inserted = record a {
        drawn = suc a.drawn;
        db = record (a.db) { api_secrets = a.db.api_secrets ++ secret ∷ [] };
      } in
      let linked = (associate_all ext platform (pg_uuid n) ids inserted).1 in
      let kept =
        associate_all-IsIntact ext platform (a.db.api_secrets ++ secret ∷ []) (pg_uuid n) ids
          inserted (record { up = up; same = refl }) in
      let b = record linked { secret_cache = new_cache } in
      let (p, shows, id, plain, error) =
        render_idle ext platform b (ext.uuid_string n) text kept.up in
      let found : stored b (pg_uuid n) ≡ some secret =
        ap (find (λ s. s.id == pg_uuid n)) kept.same
        ∙ find-append (λ s. s.id == pg_uuid n) secret a.db.api_secrets new (==_refl (pg_uuid n)) in
      rw (insert_row ext platform (record a { drawn = suc a.drawn }) params up new, shows)
        (record {
          page = p;
          shows = refl;
          shows_id = id;
          shows_text = plain;
          shows_no_error = error;
          accepted = validate_stored ext platform b n secret text kept.up refl found matches;
        })

  -- Some of the selected subscribers are on different hosts.
  abbrev pub hosts_differ : Application → List Bytes → Bool
  hosts_differ a ids =
      ltb 1 (length ids)
      && not (
          share_host ext platform (endpoints_from ext platform [] (reverse a.db.subscribers)) []
            ids)

  -- The check of the hosts, passed.
  hosts_idle :
      (a : Application) (ids : List Bytes) (fail : Bytes → View SecretsPage) (go : View SecretsPage)
      → a.db.outages ≡ []
      → hosts_differ a ids ≡ false
      → if_hosts_shared ext platform ids fail go a ≡ go a
  unfolding if_hosts_shared
  hosts_idle a ids fail go up shared = elim (Bool-cases (ltb 1 (length ids))) [
    | inl several ↦ rw (several, subscribers_row ext platform a up, passes several) refl
    | inr few ↦ rw few refl
  ]
    where
      passes :
          ltb 1 (length ids) ≡ true
          → share_host ext platform
              (endpoints_from ext platform [] (reverse a.db.subscribers))
              []
              ids
            ≡ true
      passes several = ground arith

  -- A secret works as soon as the page shows it. While the database answers, when a form with a
  -- name, a subject pattern and no two subscribers on different hosts creates a secret from random
  -- bytes that the system hands out, under an id that no secret has, the page shows that id, the
  -- text made of those bytes and no error, and this text is accepted for this id as the new secret
  -- with its subject pattern, whatever was cached before. The hash is one that bcrypt made of the
  -- text, and bcrypt accepts a text for a hash of it.
  pub secret_create_handler-validate :
      (a : Application) (random : Bytes) (salt : ℕ) (form : Form) (hash : Bytes)
      → a.db.outages ≡ []
      → contains_if (λ s. s.id == pg_uuid (ext.new_v7 a.drawn)) a.db.api_secrets ≡ false
      → is_empty (form_value (codes "name") form) ≡ false
      → is_empty (form_value (codes "subject_pattern") form) ≡ false
      → hosts_differ a (form_values (codes "subscriber_ids") form) ≡ false
      → platform.generate_hash salt (encode_to_string random) ≡ some hash
      → ext.compare_hash hash (encode_to_string random) ≡ true
      → Accepts
          (secret_create_handler ext platform (some random) salt (some form) a)
          (ext.new_v7 a.drawn)
          (encode_to_string random)
          (record {
            id = pg_uuid (ext.new_v7 a.drawn);
            name = form_value (codes "name") form;
            secret_hash = hash;
            subject_pattern = form_value (codes "subject_pattern") form;
            created_at = a.db.now;
          })
  unfolding secret_create_handler make_secret generate_secret
  secret_create_handler-validate a random salt form hash up new named patterned shared hashed
        matches =
      let name = form_value (codes "name") form in
      let pattern = form_value (codes "subject_pattern") form in
      let ids = form_values (codes "subscriber_ids") form in
      let fail = fail_create ext platform in
      let go = make_secret ext platform (some random) salt name pattern ids in
      rw (named, patterned, hosts_idle a ids fail go up shared, hashed)
        (insert_secret-Accepts a name pattern ids (encode_to_string random) hash up new matches)
