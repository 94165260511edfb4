-- ===== src/Examples/Pages.antt =====
-- The pages: logging, secrets and events. In the platform of the examples every text is JSON, no text
-- is a date, the host of a URL is the URL, and texts are ordered by nothing.
use slurpee.Prelude.{
  arith, ℕ, ◌+◌, ◌-◌, ◌*◌, ◌≡◌, refl, true, false, Bool, none, some, List, [], ◌∷◌, ◌++◌, All, map,
  length, ltb, leb, contains_if, if◌then◌else◌,
}
use slurpee.Prelude.Int.{pos, negsuc}
use slurpee.Prelude.Keys.{Bytes, codes, ==_refl, bytes_eq}
use slurpee.Prelude.Sort.{take}
use slurpee.Prelude.Text.{join, trim_space, parse_int}
use slurpee.Model.{LogConfig, pg_uuid, uuid_beq}
use slurpee.LogProperties.{extract_log_properties}
use slurpee.Secrets.Generation.{generate_secret, encode_to_string}
use slurpee.Secrets.Generation.Decoding.{IsByte, IsUrlSafe, decode, generate_secret-decode}
use slurpee.Views.{Platform, Form, shown, plain, form_value, form_values}
use slurpee.Views.Logging.{
  LogConfigRow, build_log_config_rows, parse_properties, logging_create_handler,
  logging_delete_handler,
}
use slurpee.Views.Logging.RoundTrip.{IsProperty, parse_properties-join}
use slurpee.Views.Logging.Effects.{extract_these, logging_create_handler-extract}
use slurpee.Views.Secrets.{share_host, secret_create_handler}
use slurpee.Views.Secrets.Validity.{Accepts, secret_create_handler-validate}
use slurpee.Views.Events.{
  EventsPage, EventRow, parse_page, offset_of, parse_filters, events_list_handler,
  events_missed_handler,
}
use slurpee.Views.Events.Stream.{missed, last_seen, report_missed}
use slurpee.Views.Events.Selection.{selected}
use slurpee.Views.Events.Paging.{ids_of, events_list_handler-pages}
use slurpee.Views.Events.Missed.{report_missed-rows}
use slurpee.Examples.{sample_external, sample_app}

abbrev pub sample_platform : Platform
sample_platform = record {
  engine = record {
    like = λ text pattern. true;
    contains_json = λ content filter. true;
    text_leb = λ a b. true;
    uuid_text = λ n. n ∷ [];
    breaks_tie = λ limit offset a b. true;
  };
  parse_date = λ text. none;
  json_valid = λ text. true;
  indent_json = λ text. some text;
  url_host = λ url. some url;
  to_lower = λ text. text;
  generate_hash = λ salt text. some text;
}

abbrev messy_properties : Bytes
messy_properties = codes " id,, total ,"

abbrev saved_config : LogConfig
saved_config = record {
  id = pg_uuid 1;
  subject = codes "order.paid";
  log_properties = codes "id" ∷ codes "total" ∷ [];
}

messy_properties_test : parse_properties messy_properties ≡ some saved_config.log_properties
unfolding parse_properties slurpee.Views.Logging.clean slurpee.Prelude.Text.split trim_space
    slurpee.Prelude.Text.trim_left slurpee.Prelude.Text.strip_all slurpee.Prelude.Text.strip_any
    slurpee.Prelude.Text.strip_prefix
messy_properties_test = refl

parse_properties-join_example :
    All IsProperty saved_config.log_properties
    × (map
          (λ (row : LogConfigRow). parse_properties row.log_properties)
          (build_log_config_rows (saved_config ∷ []))
        ≡ some saved_config.log_properties ∷ [])
parse_properties-join_example =
    parse_properties-join messy_properties saved_config.log_properties saved_config
      messy_properties_test refl

abbrev logging_form : Form
logging_form = (codes "subject", codes " order.paid") ∷ (codes "properties", codes "a, c") ∷ []

logging_create_handler-extract_example :
    let engine = sample_platform.engine in
    let subject = trim_space (form_value (codes "subject") logging_form) in
    let props = codes "a" ∷ codes "c" ∷ [] in
    let b = (logging_create_handler sample_external engine (some logging_form) sample_app).1 in
    let c = (logging_delete_handler sample_external engine subject sample_app).1 in
    ((extract_log_properties sample_external subject (codes "{ab") b).0
      ≡ extract_these sample_external props (codes "{ab"))
    × ((extract_log_properties sample_external subject (codes "{ab") c).0 ≡ none)
unfolding contains_if form_value trim_space slurpee.Prelude.Text.trim_left
    slurpee.Prelude.Text.strip_all slurpee.Prelude.Text.strip_any slurpee.Prelude.Text.strip_prefix
    slurpee.Prelude.Keys.bytes_beq parse_properties slurpee.Views.Logging.clean
    slurpee.Prelude.Text.split
logging_create_handler-extract_example =
    logging_create_handler-extract sample_external sample_platform.engine sample_app logging_form
      (codes "{ab") (codes "a" ∷ codes "c" ∷ []) refl refl refl refl refl

abbrev sample_random : Bytes
sample_random =
    0 ∷ 1 ∷ 2 ∷ 3 ∷ 4 ∷ 5 ∷ 6 ∷ 7 ∷ 8 ∷ 9 ∷ 10 ∷ 11 ∷ 12 ∷ 13 ∷ 14 ∷ 15 ∷ 250 ∷ 251 ∷ 252 ∷ 253
    ∷ 254 ∷ 255 ∷ 22 ∷ 23 ∷ 24 ∷ 25 ∷ 26 ∷ 27 ∷ 28 ∷ 29 ∷ 30 ∷ 31 ∷ []

contains_if-All : (bs : Bytes) → contains_if (λ b. leb 256 b) bs ≡ false → All IsByte bs
unfolding contains_if
contains_if-All [] h = tt
contains_if-All (b ∷ bs) h = (ground arith, contains_if-All bs (ground arith))

sample_random-All : All IsByte sample_random
unfolding contains_if
sample_random-All = contains_if-All sample_random refl

generate_secret-decode_example :
    let text = encode_to_string sample_random in
    (generate_secret (some sample_random) ≡ some text)
    × (length text ≡ 44)
    × All IsUrlSafe text
    × (decode text ≡ sample_random)
generate_secret-decode_example = generate_secret-decode sample_random sample_random-All refl

abbrev secret_form : Form
secret_form =
    (codes "name", codes "shop")
    ∷ (codes "subject_pattern", codes "order.*")
    ∷ (codes "subscriber_ids", 3 ∷ [])
    ∷ []

secret_create_handler-validate_example :
    Accepts sample_external sample_platform
      (secret_create_handler sample_external sample_platform
        (some (1 ∷ 2 ∷ 3 ∷ []))
        0
        (some secret_form)
        sample_app)
      1000
      (encode_to_string (1 ∷ 2 ∷ 3 ∷ []))
      (record {
        id = pg_uuid 1000;
        name = form_value (codes "name") secret_form;
        secret_hash = encode_to_string (1 ∷ 2 ∷ 3 ∷ []);
        subject_pattern = form_value (codes "subject_pattern") secret_form;
        created_at = 100;
      })
unfolding contains_if form_value form_values uuid_beq slurpee.Prelude.Keys.bytes_beq
secret_create_handler-validate_example =
    secret_create_handler-validate sample_external sample_platform sample_app (1 ∷ 2 ∷ 3 ∷ []) 0
      secret_form (encode_to_string (1 ∷ 2 ∷ 3 ∷ [])) refl refl refl refl refl refl
      (==_refl (encode_to_string (1 ∷ 2 ∷ 3 ∷ [])))

abbrev endpoints : List (Bytes × Bytes)
endpoints = (codes "1", []) ∷ (codes "2", codes "b:80") ∷ []

-- The check of the hosts depends on the order of the subscribers if one has a URL without a host.
host_order_test :
    (share_host sample_external sample_platform endpoints [] (codes "1" ∷ codes "2" ∷ []) ≡ true)
    × (share_host sample_external sample_platform endpoints [] (codes "2" ∷ codes "1" ∷ []) ≡ false)
unfolding share_host slurpee.Views.Secrets.extract_host_port slurpee.Prelude.Keys.lookup
    slurpee.Prelude.Keys.bytes_beq
host_order_test = (refl, refl)

abbrev second_page : Form
second_page = (codes "page", codes "2") ∷ []

events_list_handler-pages_example :
    let page = parse_page (form_value (codes "page") second_page) in
    let all = selected sample_platform (parse_filters second_page) sample_app in
    let before = (page - 1) * 25 in
    let ids = ids_of sample_external sample_platform all in
    (p : EventsPage) × ((events_list_handler sample_external sample_platform second_page false
        sample_app).0
      ≡ shown 200 p)
    × (p.page ≡ page)
    × (p.has_next ≡ ltb (before + 25) (length all))
    × (take before ids ++ map (λ (r : EventRow). r.id) p.rows ≡ take (before + 25) ids)
unfolding parse_page form_value parse_int slurpee.Prelude.Text.parse_digits
    slurpee.Prelude.Text.digits_from slurpee.Prelude.Keys.bytes_beq
events_list_handler-pages_example =
    events_list_handler-pages sample_external sample_platform second_page false sample_app refl
      (tt, tt) (omega arith)

-- The offset of a large page wraps around, and the query for it fails.
large_page_test : offset_of 85899347 ≡ negsuc 2147483645
unfolding offset_of slurpee.Api.Subscribers.int32
large_page_test = refl

abbrev missed_query : Form
missed_query = (codes "after", codes "5") ∷ []

report_missed-rows_example :
    (count : ℕ) × (rows : List EventRow) × ((report_missed sample_external sample_platform
        (codes "1:5")
        (parse_filters missed_query)
        sample_app).0
      ≡ (if ltb 0 count then missed count ∷ [] else []))
    × ((events_missed_handler sample_external sample_platform missed_query sample_app).0
        ≡ shown 200 rows)
    × (length rows ≡ (if leb count 200 then count else 200))
unfolding last_seen form_value parse_int slurpee.Prelude.Text.parse_digits
    slurpee.Prelude.Text.digits_from slurpee.Prelude.Text.split_first slurpee.Prelude.Keys.bytes_beq
report_missed-rows_example =
    report_missed-rows sample_external sample_platform (codes "1:5") missed_query (pos 5) sample_app
      refl refl refl refl
