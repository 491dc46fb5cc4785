-- ===== src/Control/Tests.antt =====
-- Runs of the control frames of src/control.rs.
use meshconf.Prelude.{ℕ, ◌≡◌, refl, [], ◌∷◌, length, unexpected_eof, arith}
use meshconf.Protocol.Stream.{finished, feed}
use meshconf.Control.{ControlMessage, hello, congestion_feedback, handle_control_stream}
use meshconf.Control.Sample.{print_string, print, sample_json}
use meshconf.Control.Frame.{handle_control_stream-write, write_msgs}

abbrev report : ControlMessage ℕ
report = congestion_feedback 90 10 0 0

abbrev greeting : ControlMessage ℕ
greeting = hello (104 ∷ []) (65 ∷ 66 ∷ [])

length-print : (length (print report) ≡ 5) × (length (print greeting) ≡ 6)
unfolding print print_string
length-print = (refl, refl)

handle_control_stream-write_example :
    handle_control_stream sample_json 3
      (feed (write_msgs sample_json [] (greeting ∷ report ∷ [])) finished)
    ≡ (greeting ∷ report ∷ [], unexpected_eof)
handle_control_stream-write_example =
    handle_control_stream-write sample_json (greeting ∷ report ∷ []) 3
      (omega (arith, length-print.1), (omega (arith, length-print.0), tt)) (omega arith)
