-- ===== src/Measuring/Influx.antt =====
-- When measurements are uploaded (rclcpp/rclcpp/src/rclcpp/measuring/influxdb_measurement_writer.cpp
-- and the heuristic of its header). The builder of the InfluxDB client is the list of the lines in its
-- buffer, whose size in bytes is a parameter; a clock shows whole milliseconds. The responses of the server are not looked at, as in
-- the code, so an upload counts as made when it is posted.
use pmros.Base.{
  ℕ, Bool, true, false, ltb, if◌then◌else◌, List, [], ◌∷◌, ◌++◌, ◌≡◌, inl, inr, refl, sym, ◌∙◌, ap,
  arith, append-nil, append_assoc, ltb-cases, Bool-cases,
}
use pmros.Base.Int.{ℤ, pos, ◌-ℤ◌, ltb_ℤ}

-- InfluxDBUploadHeuristic: times in milliseconds, sizes in bytes.
pub record Heuristic : Type 0 where
  pub last_upload_time : ℤ
  pub size_constraint : ℕ
  pub time_constraint : ℕ

-- `now` is the steady clock.
unfoldable pub should_upload : ℤ → ℕ → Heuristic → Bool
should_upload now size h =
    if ltb_ℤ (pos h.time_constraint) (now -ℤ h.last_upload_time)
    then true
    else ltb h.size_constraint size

unfoldable pub set_last_upload_time : ℤ → Heuristic → Heuristic
set_last_upload_time now h = record h { last_upload_time = now }

-- updateHeuristic with both constraints given.
unfoldable pub update_heuristic : ℕ → ℕ → Heuristic → Heuristic
update_heuristic size time h = record h { size_constraint = size; time_constraint = time }

pub record InfluxWriter {ℓ} (L : Type ℓ) : Type ℓ where
  pub heuristic : Heuristic
  pub builder : List L
  pub posted : List (List L)

module _ {ℓ} {L : Type ℓ} (buffer_size : List L → ℕ) where
  -- The clock is read in should_upload and in set_last_upload_time.
  unfoldable pub maybe_upload : ℤ → ℤ → InfluxWriter L → InfluxWriter L
  maybe_upload now now' w =
      if should_upload now (buffer_size w.builder) w.heuristic
      then record {
        heuristic = update_heuristic 64000 15000 (set_last_upload_time now' w.heuristic);
        builder = [];
        posted = w.posted ++ (w.builder ∷ []);
      }
      else w

  -- record_latency, record_arrival and record_activation_jitter: a line, and perhaps an upload.
  unfoldable pub record_line : ℤ → ℤ → L → InfluxWriter L → InfluxWriter L
  record_line now now' line w =
      maybe_upload now now' (record w { builder = w.builder ++ (line ∷ []) })

  abbrev is_empty : List L → Bool
  is_empty [] = true
  is_empty (x ∷ xs) = false

  -- The destructor uploads what is left.
  unfoldable pub shut_down : InfluxWriter L → List (List L)
  shut_down w = if ltb 0 (buffer_size w.builder) then w.posted ++ (w.builder ∷ []) else w.posted

  abbrev pub concat : List (List L) → List L
  concat [] = []
  concat (xs ∷ xss) = xs ++ concat xss

  -- All lines that were uploaded or wait, in order.
  abbrev lines : InfluxWriter L → List L
  lines w = concat w.posted ++ w.builder

  concat-append : (xss : List (List L)) (xs : List L) → concat (xss ++ (xs ∷ [])) ≡ concat xss ++ xs
  concat-append [] xs = append-nil xs
  concat-append (ys ∷ xss) xs =
      ap (λ (zs : List L). ys ++ zs) (concat-append xss xs) ∙ sym (append_assoc ys (concat xss) xs)

  lines-record_line :
      (now now' : ℤ) (line : L) (w : InfluxWriter L)
      → lines (record_line now now' line w) ≡ lines w ++ (line ∷ [])
  unfolding record_line maybe_upload
  lines-record_line now now' line w =
      let filled = w.builder ++ (line ∷ []) in
      elim (Bool-cases (should_upload now (buffer_size filled) w.heuristic)) [
        | inl e ↦
            rw
              (
                e,
                append-nil (concat (w.posted ++ (filled ∷ []))),
                concat-append w.posted filled,
                append_assoc (concat w.posted) w.builder (line ∷ []),
              )
              refl
        | inr e ↦ rw (e, append_assoc (concat w.posted) w.builder (line ∷ [])) refl
      ]

  -- Each line with what the clock shows at the two times it is read.
  unfoldable pub record_all : List (ℤ × ℤ × L) → InfluxWriter L → InfluxWriter L
  record_all [] w = w
  record_all ((now, now', line) ∷ records) w = record_all records (record_line now now' line w)

  abbrev recorded : List (ℤ × ℤ × L) → List L
  recorded [] = []
  recorded ((now, now', line) ∷ records) = line ∷ recorded records

  lines-record_all :
      (records : List (ℤ × ℤ × L)) (w : InfluxWriter L)
      → lines (record_all records w) ≡ lines w ++ recorded records
  unfolding record_all
  lines-record_all [] w = sym (append-nil (lines w))
  lines-record_all ((now, now', line) ∷ records) w =
      lines-record_all records (record_line now now' line w)
      ∙ ap (λ (ls : List L). ls ++ recorded records) (lines-record_line now now' line w)
      ∙ append_assoc (lines w) (line ∷ []) (recorded records)

  -- From a writer that has uploaded nothing, whatever the clock shows: where only an empty buffer has
  -- size zero, every line that is recorded is uploaded exactly once, in the order of recording, once
  -- the writer is shut down.
  uploaded_once :
      (h : Heuristic) (records : List (ℤ × ℤ × L))
      → ((ls : List L) → buffer_size ls ≡ 0 → ls ≡ [])
      → concat
          (shut_down (record_all records (record { heuristic = h; builder = []; posted = [] })))
        ≡ recorded records
  unfolding shut_down
  uploaded_once h records empty =
      let w = record_all records (record { heuristic = h; builder = []; posted = [] }) in
      let all : lines w ≡ recorded records =
        lines-record_all records (record { heuristic = h; builder = []; posted = [] }) in
      elim (ltb-cases 0 (buffer_size w.builder)) [
        | inl (e, l) ↦ rw e (concat-append w.posted w.builder ∙ all)
        | inr (e, l) ↦
            let nothing : w.builder ≡ [] = empty w.builder (omega (arith, l)) in
            rw e (
              sym (append-nil (concat w.posted))
              ∙ ap (λ (ls : List L). concat w.posted ++ ls) (sym nothing)
              ∙ all)
      ]
