-- ===== src/Measuring/Received.antt =====
-- The files that the tracker of a subscription writes (rclcpp/rclcpp/src/rclcpp/measuring).
use pmros.Base.{List, [], ◌∷◌, ◌++◌, ◌≡◌, refl, append_assoc, append-nil, ap₂, ◌∙◌}
use pmros.Base.Int.{ℤ}
use pmros.Base.Bytes.{Bytes, codes}
use pmros.Chrono.{to_uint32}
use pmros.Measuring.{MessageTrackingVariables, hex_char_array}
use pmros.Measuring.Writers.{
  Piece, text, number, comma, newline, SubscriberTracker, new_subscriber_tracker,
  register_measurement_class, track_received, use_timestamp, record_latency, record_arrival,
}

-- A message with what the two clocks show when it arrives.
abbrev pub Arrival : Type 0
Arrival = ℤ × ℤ × MessageTrackingVariables

unfoldable pub receive_all : List Arrival → SubscriberTracker → SubscriberTracker
receive_all [] t = t
receive_all ((monotonic, unix, msg) ∷ arrivals) t =
    receive_all arrivals (track_received monotonic unix msg t)

abbrev pub row : List Piece → List Piece
row [] = newline ∷ []
row (p ∷ pieces) = comma ∷ p ∷ row pieces

abbrev hash_text : MessageTrackingVariables → Piece
hash_text msg = text (hex_char_array (to_uint32 msg.vandenhoven_publisher_hash))

-- The lines of the two files: the time and the hash, then the times of sending and arrival; and the
-- time, the hash and the time of sending.
abbrev pub latency_rows : List Arrival → List Piece
latency_rows [] = []
latency_rows ((monotonic, unix, msg) ∷ arrivals) =
    (number unix ∷ row (hash_text msg ∷ number msg.vandenhoven_timestamp ∷ number monotonic ∷ []))
    ++ latency_rows arrivals

abbrev pub arrival_rows : List Arrival → List Piece
arrival_rows [] = []
arrival_rows ((monotonic, unix, msg) ∷ arrivals) =
    (number unix ∷ row (hash_text msg ∷ number msg.vandenhoven_timestamp ∷ []))
    ++ arrival_rows arrivals

abbrev last_time : ℤ → List Arrival → ℤ
last_time t [] = t
last_time t ((monotonic, unix, msg) ∷ arrivals) = last_time unix arrivals

abbrev pub tracker_with : ℤ → Bytes → Bytes → Bytes → List Piece → List Piece → SubscriberTracker
tracker_with time host latency_name arrival_name latencies arrivals = record {
  writer = record {
    output_timestamp = time;
    measurement_classes =
        record { name = latency_name; content = latencies }
        ∷ record { name = arrival_name; content = arrivals }
        ∷ [];
    host_full_name = host;
  };
  latency_key = 0;
  arrival_key = 1;
}

receive_from :
    (arrivals : List Arrival) (time : ℤ) (host ln an : Bytes) (ls as' : List Piece)
    → receive_all arrivals (tracker_with time host ln an ls as')
      ≡ tracker_with
          (last_time time arrivals)
          host
          ln
          an
          (ls ++ latency_rows arrivals)
          (as' ++ arrival_rows arrivals)
unfolding receive_all track_received use_timestamp record_latency record_arrival
receive_from [] time host ln an ls as' = rw (append-nil ls, append-nil as') refl
receive_from ((monotonic, unix, msg) ∷ arrivals) time host ln an ls as' =
    let latency =
      number unix
      ∷ row (hash_text msg ∷ number msg.vandenhoven_timestamp ∷ number monotonic ∷ []) in
    let arrival = number unix ∷ row (hash_text msg ∷ number msg.vandenhoven_timestamp ∷ []) in
    receive_from arrivals unix host ln an (ls ++ latency) (as' ++ arrival)
    ∙ ap₂ (tracker_with (last_time unix arrivals) host ln an)
        (append_assoc ls latency (latency_rows arrivals))
        (append_assoc as' arrival (arrival_rows arrivals))

abbrev file_name : Bytes → Bytes → Bytes
file_name host name = host ++ (codes "_[" ++ (name ++ codes "].txt"))

abbrev pub latency_columns_row : List Piece
latency_columns_row =
    text (codes "unix_time")
    ∷ row (
        text (codes "publisher_hash") ∷ text (codes "send_time") ∷ text (codes "receive_time") ∷ [])

abbrev pub arrival_columns_row : List Piece
arrival_columns_row =
    text (codes "unix_time") ∷ row (text (codes "publisher_hash") ∷ text (codes "msg_id") ∷ [])

-- A tracker of a subscription over a new file writer writes two files, whatever arrives. The first has
-- the columns unix_time, publisher_hash, send_time and receive_time, and a line of these four for
-- each message, in the order of arrival. The second has the columns unix_time, publisher_hash and
-- msg_id, but its lines hold the time of sending where the header says msg_id, and the identifiers of
-- the messages are written nowhere.
pub receive_all_lem :
    (time : ℤ) (host : Bytes) (arrivals : List Arrival)
    → receive_all arrivals (
        new_subscriber_tracker
          (record { output_timestamp = time; measurement_classes = []; host_full_name = host }))
      ≡ tracker_with
          (last_time time arrivals)
          host
          (file_name host (codes "message_latency"))
          (file_name host (codes "message_arrival"))
          (latency_columns_row ++ latency_rows arrivals)
          (arrival_columns_row ++ arrival_rows arrivals)
unfolding new_subscriber_tracker register_measurement_class
receive_all_lem time host arrivals =
    receive_from arrivals time host (file_name host (codes "message_latency"))
      (file_name host (codes "message_arrival")) latency_columns_row arrival_columns_row
