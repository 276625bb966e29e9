-- ===== src/Backup/Import/Versions.antt =====
-- backup/import.rs: which texts `parse_backup_json` reads as a backup.
use freematics_gui.Base.{◌≡◌, ◌↔◌, refl, ap, ◌∙◌, some, Bool-cases, Option-cases, inl, inr}
use freematics_gui.Base.Result
use freematics_gui.Base.Result.{Result, ok, err, Result-cases}
use freematics_gui.Text.{Text, codes, text_eq, text_eq_refl, eq_of_text_eq}
use freematics_gui.Protocol.Config.{DeviceConfig}
use freematics_gui.Backup.Schema.{
  BackupFile, Json, BackupSerde, string_at, schema_version_one, new_backup,
}
use freematics_gui.Backup.Export.{export_to_json}
use freematics_gui.Backup.Import.{parse_backup_json, read_value}

module _ {V F : Type 0} (json : Json V) (serde : BackupSerde V F) where
  -- The text is JSON, its version is "1", and its contents are the backup.
  pub record IsBackup (source : Text) (backup : BackupFile F) : Type 0 where
    pub value : V
    pub is_json : json.from_str source ≡ ok value
    pub version : string_at json (codes "schema_version") value ≡ some schema_version_one
    pub contents : serde.from_value value ≡ ok backup

  read_value_sound :
      (value : V) (backup : BackupFile F)
      → read_value json serde value ≡ ok backup
      → (string_at json (codes "schema_version") value ≡ some schema_version_one)
        × (serde.from_value value ≡ ok backup)
  read_value_sound value backup h =
      elim (Option-cases (string_at json (codes "schema_version") value)) [
        | inl e ↦ let no_version = rw e at h in cc
        | inr (v, e) ↦ elim (Bool-cases (text_eq v schema_version_one)) [
          | inr n ↦ let refused = rw (e, n) at h in cc
          | inl y ↦ elim (Result-cases (serde.from_value value)) [
            | inr (x, f) ↦ let refused = rw (e, y, f) at h in cc
            | inl (b, f) ↦
                (rw e (ap some (eq_of_text_eq v schema_version_one y)), f ∙ rw (e, y, f) at h)
          ]
        ]
      ]

  -- A text is read as a backup exactly when it is JSON, its version is "1", and its contents are
  -- those of the backup.
  pub parse_backup_json_iff :
      (source : Text) (backup : BackupFile F)
      → (parse_backup_json json serde source ≡ ok backup) ↔ IsBackup source backup
  unfolding parse_backup_json
  parse_backup_json_iff source backup = (sound, complete)
    where
      sound : parse_backup_json json serde source ≡ ok backup → IsBackup source backup
      sound h = elim (Result-cases (json.from_str source)) [
        | inr (x, e) ↦ let refused = rw e at h in cc
        | inl (v, e) ↦
            let (version, contents) = read_value_sound v backup (rw e at h) in
            record { value = v; is_json = e; version = version; contents = contents }
      ]

      complete : IsBackup source backup → parse_backup_json json serde source ≡ ok backup
      complete b = rw (b.is_json, b.version, text_eq_refl schema_version_one, b.contents) refl

  -- What serde documents of a derived type: the text that is printed is JSON, whose fields are read
  -- back.
  abbrev pub Prints : BackupFile F → Type 0
  Prints backup =
      (source : Text)
      → serde.to_string_pretty backup ≡ ok source
      → (value : V) × (json.from_str source ≡ ok value)
        × (string_at json (codes "schema_version") value ≡ some backup.schema_version)
        × (serde.from_value value ≡ ok backup)

  exported :
      (r : Result Text Text) (f : Text → Text) (source : Text)
      → Result.map_err f r ≡ ok source
      → r ≡ ok source
  exported (ok t) f source h = h
  exported (err e) f source h = cc

  -- The text of a new backup, if it is exported, is read back as that backup, where serde reads
  -- what it prints.
  pub parse_backup_json-export_to_json :
      (now model version sha source : Text) (config : DeviceConfig F)
      → Prints (new_backup now model version sha config)
      → export_to_json serde (new_backup now model version sha config) ≡ ok source
      → parse_backup_json json serde source ≡ ok (new_backup now model version sha config)
  unfolding export_to_json
  parse_backup_json-export_to_json now model version sha source config prints h =
      let b : BackupFile F = new_backup now model version sha config in
      let (value, read, field, contents) =
        prints source (exported (serde.to_string_pretty b) _ source h) in
      (parse_backup_json_iff source b).1 (record {
        value = value;
        is_json = read;
        version = unfold new_backup in field;
        contents = contents;
      })
