-- ===== src/Measuring/Writers.antt =====
-- The writer of measurements into files (file_measurement_writer.cpp of
-- rclcpp/rclcpp/src/rclcpp/measuring, and measurement_writer_interface.hpp) and the tracker of a
-- subscription (subscriber_message_tracker.cpp). A file is the list of what was put into its stream, with numbers
-- as such.
use pmros.Base.{ℕ, none, some, List, [], ◌∷◌, ◌++◌, length, get_elem?, set}
use pmros.Base.Int.{ℤ, pos}
use pmros.Base.Bytes.{Bytes, codes}
use pmros.Base.Results.{Result, ok, err, std_out_of_range}
use pmros.Chrono.{to_uint32}
use pmros.Measuring.{MessageTrackingVariables, hex_char_array}

-- What is put into a stream.
pub data Piece : Type 0 where
  text : Bytes → Piece
  number : ℤ → Piece

abbrev pub comma : Piece
comma = text (codes ",")

abbrev pub newline : Piece
newline = text (codes "\n")

pub record MessageTrackerHostInfo : Type 0 where
  pub topic_name : Bytes
  pub node_name : Bytes
  pub node_namespace : Bytes

pub record File : Type 0 where
  pub name : Bytes
  pub content : List Piece

pub record FileWriter : Type 0 where
  pub output_timestamp : ℤ
  pub measurement_classes : List File
  pub host_full_name : Bytes

-- The name space without its first character, and "::" where that leaves something.
abbrev prefix_of : Bytes → Bytes
prefix_of [] = []
prefix_of (d ∷ ns) = (d ∷ ns) ++ codes "::"

-- std::string::substr throws for an empty name space.
unfoldable pub new_file_writer : MessageTrackerHostInfo → Result FileWriter
new_file_writer host = elim host.node_namespace [
  | [] ↦ err std_out_of_range
  | c ∷ ns ↦ ok (record {
    output_timestamp = pos 0;
    measurement_classes = [];
    host_full_name = host.topic_name ++ (codes "->" ++ (prefix_of ns ++ host.node_name));
  })
]

abbrev header_of : List Bytes → List Piece
header_of [] = newline ∷ []
header_of (c ∷ columns) = comma ∷ text c ∷ header_of columns

unfoldable pub register_measurement_class : Bytes → List Bytes → FileWriter → ℕ × FileWriter
register_measurement_class name columns w =
    let file : File = record {
      name = w.host_full_name ++ (codes "_[" ++ (name ++ codes "].txt"));
      content = text (codes "unix_time") ∷ header_of columns;
    } in
    (
      length w.measurement_classes,
      record w { measurement_classes = w.measurement_classes ++ (file ∷ []) },
    )

-- A key that was not registered, which C++ does not define, changes nothing.
abbrev put : ℕ → List Piece → FileWriter → FileWriter
put key pieces w = elim (get_elem? w.measurement_classes key) [
  | none ↦ w
  | some file ↦ record w {
    measurement_classes =
        set w.measurement_classes key (record file { content = file.content ++ pieces });
  }
]

unfoldable pub use_timestamp : ℤ → FileWriter → FileWriter
use_timestamp timestamp w = record w { output_timestamp = timestamp }

unfoldable pub record_latency : ℕ → MessageTrackingVariables → Bytes → ℤ → FileWriter → FileWriter
record_latency key msg publisher arrival_time w =
    put key
      (number w.output_timestamp
        ∷ comma
        ∷ text publisher
        ∷ comma
        ∷ number msg.vandenhoven_timestamp
        ∷ comma
        ∷ number arrival_time
        ∷ newline
        ∷ [])
      w

unfoldable pub record_arrival : ℕ → MessageTrackingVariables → Bytes → FileWriter → FileWriter
record_arrival key msg publisher w =
    put key
      (number w.output_timestamp
        ∷ comma
        ∷ text publisher
        ∷ comma
        ∷ number msg.vandenhoven_timestamp
        ∷ newline
        ∷ [])
      w

unfoldable pub record_activation_jitter : ℕ → ℤ → FileWriter → FileWriter
record_activation_jitter key jitter w =
    put key (number w.output_timestamp ∷ comma ∷ number jitter ∷ newline ∷ []) w

-- SubscriberMessageTracker over a file writer.
pub record SubscriberTracker : Type 0 where
  pub writer : FileWriter
  pub latency_key : ℕ
  pub arrival_key : ℕ

abbrev latency_columns : List Bytes
latency_columns = codes "publisher_hash" ∷ codes "send_time" ∷ codes "receive_time" ∷ []

abbrev arrival_columns : List Bytes
arrival_columns = codes "publisher_hash" ∷ codes "msg_id" ∷ []

unfoldable pub new_subscriber_tracker : FileWriter → SubscriberTracker
unfolding register_measurement_class
new_subscriber_tracker w =
    let (latency, w1) = register_measurement_class (codes "message_latency") latency_columns w in
    let (arrival, w2) = register_measurement_class (codes "message_arrival") arrival_columns w1 in
    record { writer = w2; latency_key = latency; arrival_key = arrival }

-- `monotonic` and `unix` are the times of the two clocks.
unfoldable pub track_received :
    ℤ → ℤ → MessageTrackingVariables → SubscriberTracker → SubscriberTracker
unfolding use_timestamp record_latency record_arrival
track_received monotonic unix msg t =
    let hex_string = hex_char_array (to_uint32 msg.vandenhoven_publisher_hash) in
    let w = use_timestamp unix t.writer in
    let w1 = record_latency t.latency_key msg hex_string monotonic w in
    record t { writer = record_arrival t.arrival_key msg hex_string w1 }
