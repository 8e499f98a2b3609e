-- ===== src/Config/Settings.antt =====
-- What the settings can be, whatever the environment holds.
use carbmq_core.Base.{
  String, true, false, List, [], ◌∷◌, ◌==◌, eq_iff, ◌≡◌, ◌≢◌, refl, ap, sym, ◌∙◌, arith, All,
  Bool-cases, inl, inr,
}
use carbmq_core.Base.Text.{◌<>◌}
use carbmq_core.Base.Text.Trim.{trim_space, trim_space_idem, trim_left, trim_right, is_space}
use carbmq_core.Base.Text.Commas.{split_commas, NoComma, split_of_NoComma, split-append_comma}
use carbmq_core.Config.{
  Environment, ParseDuration, Config, env_text, env_csv, trimmed_parts, or_fallback, load,
}

-- An entry of a list of settings: a text without white space around it, and not empty.
pub record IsClean (s : String) : Type 0 where
  pub not_empty : s ≢ ""
  pub trimmed : trim_space s ≡ s

trimmed_parts-IsClean : (parts : List String) → All IsClean (trimmed_parts parts)
unfolding trimmed_parts
trimmed_parts-IsClean [] = tt
trimmed_parts-IsClean (part ∷ parts) = elim (Bool-cases (trim_space part == "")) [
  | inl blank ↦ rw (trimmed_parts, blank) (trimmed_parts-IsClean parts)
  | inr full ↦
      rw (trimmed_parts, full)
        (
          record {
            not_empty = ground (arith, full, eq_iff (trim_space part) "");
            trimmed = trim_space_idem part;
          },
          trimmed_parts-IsClean parts,
        )
]

or_fallback-IsClean :
    (fallback values : List String)
    → All IsClean fallback
    → fallback ≢ []
    → All IsClean values
    → All IsClean (or_fallback fallback values) × (or_fallback fallback values ≢ [])
unfolding or_fallback
or_fallback-IsClean fallback [] clean some_value h = (clean, some_value)
or_fallback-IsClean fallback (v ∷ vs) clean some_value h = (h, cc)

-- `envCSV` gives at least one value, and every value is trimmed and not empty, whatever the
-- environment holds, if so is the fallback.
env_csv-IsClean :
    (os : Environment) (key : String) (fallback : List String)
    → All IsClean fallback
    → fallback ≢ []
    → All IsClean (env_csv os key fallback) × (env_csv os key fallback ≢ [])
unfolding env_csv
env_csv-IsClean os key fallback clean some_value = elim (Bool-cases (os key == "")) [
  | inl unset ↦ rw unset (clean, some_value)
  | inr set ↦ rw set (
      or_fallback-IsClean fallback _ clean some_value
        (trimmed_parts-IsClean (split_commas (os key))))
]

-- values, one after another with commas between
unfoldable join_commas : List String → String
join_commas [] = ""
join_commas (s ∷ []) = s
join_commas (s ∷ t ∷ ss) = s <> "," <> join_commas (t ∷ ss)

split-join_commas :
    (s : String) (ss : List String)
    → All NoComma (s ∷ ss)
    → split_commas (join_commas (s ∷ ss)) ≡ s ∷ ss
unfolding join_commas
split-join_commas s [] h = split_of_NoComma s h.0
split-join_commas s (t ∷ ss) h =
    split-append_comma s (join_commas (t ∷ ss)) h.0 ∙ ap (λ ts. s ∷ ts) (split-join_commas t ss h.1)

trimmed_parts_of_clean : (ss : List String) → All IsClean ss → trimmed_parts ss ≡ ss
unfolding trimmed_parts
trimmed_parts_of_clean [] h = refl
trimmed_parts_of_clean (s ∷ ss) (clean, h) =
    let full : (s == "") ≡ false = ground (arith, eq_iff s "", clean.not_empty) in
    rw (clean.trimmed, full, trimmed_parts_of_clean ss h) refl

first_of_blank : (v : String) (vs : List String) → split_commas "" ≡ v ∷ vs → "" ≡ v
unfolding split_commas
first_of_blank v vs h = cc

-- A list of values, each trimmed, not empty and without a comma, is read back as it was written with
-- commas between the values.
env_csv-join_commas :
    (os : Environment) (key : String) (fallback : List String) (v : String) (vs : List String)
    → All NoComma (v ∷ vs)
    → All IsClean (v ∷ vs)
    → os key ≡ join_commas (v ∷ vs)
    → env_csv os key fallback ≡ v ∷ vs
unfolding env_csv or_fallback
env_csv-join_commas os key fallback v vs plain clean written =
    let parts : split_commas (os key) ≡ v ∷ vs =
      ap split_commas written ∙ split-join_commas v vs plain in
    elim (Bool-cases (os key == "")) [
      | inl unset ↦
          let empty : os key ≡ "" = (eq_iff (os key) "").0 unset in
          let one : split_commas "" ≡ v ∷ vs = sym (ap split_commas empty) ∙ parts in
          absurd (clean.0.not_empty (sym (first_of_blank v vs one)))
      | inr set ↦ rw (set, parts, trimmed_parts_of_clean (v ∷ vs) clean) refl
    ]

env_text-ne-empty :
    (os : Environment) (key fallback : String) → fallback ≢ "" → env_text os key fallback ≢ ""
unfolding env_text
env_text-ne-empty os key fallback h = ground (arith, eq_iff (os key) "", h)

-- Every text that has to be there is, and so is an origin.
pub record IsComplete (c : Config) : Type 0 where
  pub env : c.env ≢ ""
  pub broker_listens : c.broker.listen_addr ≢ ""
  pub broker_measures : c.broker.metrics_addr ≢ ""
  pub protocol : c.broker.protocol_name ≢ ""
  pub api_listens : c.api.listen_addr ≢ ""
  pub origins : All IsClean c.api.allowed_origins × (c.api.allowed_origins ≢ [])
  pub bridge : c.api.bridge_client_id ≢ ""
  pub broker_addr : c.api.broker_addr ≢ ""
  pub metrics_url : c.api.broker_metrics_url ≢ ""
  pub secret : c.auth.jwt_secret ≢ ""
  pub url : c.database.url ≢ ""
  pub log_level : c.observability.log_level ≢ ""

clean_text : (s : String) → (s == "") ≡ false → (trim_space s == s) ≡ true → IsClean s
clean_text s full same = record {
  not_empty = ground (arith, eq_iff s "", full);
  trimmed = (eq_iff (trim_space s) s).0 same;
}

-- `Load` leaves no text empty but the paths of the certificate and of its key, and it allows at
-- least one origin, each trimmed and not empty, whatever the environment holds.
load-IsComplete : (parse : ParseDuration) (os : Environment) → IsComplete (load parse os)
unfolding load trim_space trim_left trim_right is_space
load-IsComplete parse os = record {
  env = env_text-ne-empty os _ _ cc;
  broker_listens = env_text-ne-empty os _ _ cc;
  broker_measures = env_text-ne-empty os _ _ cc;
  protocol = env_text-ne-empty os _ _ cc;
  api_listens = env_text-ne-empty os _ _ cc;
  origins =
      env_csv-IsClean os _ _
        (
          clean_text "http://localhost:3000" refl refl,
          (clean_text "http://localhost:5173" refl refl, tt),
        )
        cc;
  bridge = env_text-ne-empty os _ _ cc;
  broker_addr = env_text-ne-empty os _ _ cc;
  metrics_url = env_text-ne-empty os _ _ cc;
  secret = env_text-ne-empty os _ _ cc;
  url = env_text-ne-empty os _ _ cc;
  log_level = env_text-ne-empty os _ _ cc;
}
