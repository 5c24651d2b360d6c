-- ===== src/Measuring/Tests.antt =====
-- The theorems on measurements at concrete inputs.
use pmros.Base.{List, [], ◌∷◌, ◌++◌, ◌≡◌, refl}
use pmros.Base.Int.{pos, negsuc}
use pmros.Base.Bytes.{codes}
use pmros.Measuring.{MessageTrackingVariables, hex_char_array, hex_digits}
use pmros.Measuring.Writers.{new_subscriber_tracker}
use pmros.Measuring.Received.{
  Arrival, receive_all, tracker_with, latency_columns_row, arrival_columns_row, latency_rows,
  arrival_rows, receive_all_lem,
}

abbrev unnamed : MessageTrackingVariables
unnamed = record {
  vandenhoven_timestamp = pos 0;
  vandenhoven_identifier = pos 0;
  vandenhoven_publisher_hash = pos 0;
}

hex_of : hex_char_array 3735928559 ≡ codes "DEADBEEF"
unfolding hex_char_array hex_digits
hex_of = refl

abbrev one_arrival : List Arrival
one_arrival =
    (
      pos 9,
      pos 1000,
      record {
        vandenhoven_timestamp = pos 4;
        vandenhoven_identifier = pos 1;
        vandenhoven_publisher_hash = negsuc 0;
      },
    )
    ∷ []

receive_all_example :
    receive_all one_arrival (
      new_subscriber_tracker (record {
        output_timestamp = pos 0;
        measurement_classes = [];
        host_full_name = codes "t->n";
      }))
    ≡ tracker_with
        (pos 1000)
        (codes "t->n")
        (codes "t->n_[message_latency].txt")
        (codes "t->n_[message_arrival].txt")
        (latency_columns_row ++ latency_rows one_arrival)
        (arrival_columns_row ++ arrival_rows one_arrival)
receive_all_example = receive_all_lem (pos 0) (codes "t->n") one_arrival
