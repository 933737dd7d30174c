-- ===== src/Examples/Reports.antt =====
-- Examples of the final report.
use riperf.Base.{
  ℕ, ◌≡◌, refl, true, false, List, [], ◌∷◌, none, some, ℤ, pos, negsuc, codes, map, arith, keep,
  ◌+ℤ◌,
}
use riperf.Base.Float.{whole}
use riperf.Base.Decimal.{show_ℕ}
use riperf.Report.HttpDate.{http_date, render}
use riperf.Report.HttpDate.Calendar.{calendar, weekday, http_date-calendar}
use riperf.Reporter.Summary.{StreamSummary, sum_summaries, final_summary_rows}
use riperf.Reporter.Conservation.{bytes_of, shares, sum_summaries-bytes}

abbrev sender : ℤ → ℕ → StreamSummary whole
sender id n = record {
  stream_id = id;
  start = pos 0;
  end = pos 10;
  bytes = n;
  is_sender = true;
  retransmits = some (pos 2);
  jitter = none;
  lost = none;
  total_packets = none;
  role_tag = some (codes "TX-C");
}

abbrev receiver : StreamSummary whole
receiver = record (sender (pos 5) 700) { is_sender = false; role_tag = some (codes "RX-C") }

abbrev streams : List (StreamSummary whole)
streams = sender (pos 1) 1000 ∷ receiver ∷ sender (pos 3) 500 ∷ []

one_row :
    (map (λ s. s.bytes) (sum_summaries streams) ≡ 1500 ∷ [])
    × (map (λ s. s.retransmits) (sum_summaries streams) ≡ some (pos 4) ∷ [])
unfolding sum_summaries ◌+ℤ◌
one_row = (refl, refl)

four_rows :
    map (λ s. s.stream_id) (final_summary_rows streams) ≡ pos 1 ∷ pos 5 ∷ pos 3 ∷ negsuc 0 ∷ []
unfolding final_summary_rows
four_rows = refl

sum_summaries-bytes_example :
    bytes_of (sum_summaries streams) ≡ bytes_of (keep (shares streams) streams)
sum_summaries-bytes_example = sum_summaries-bytes streams (omega arith)

end_of_february : http_date 951868799 ≡ codes "Tue, 29 Feb 2000 23:59:59 GMT"
unfolding http_date show_ℕ
end_of_february = refl

epoch : http_date 0 ≡ codes "Thu, 01 Jan 1970 00:00:00 GMT"
unfolding http_date show_ℕ
epoch = refl

http_date-calendar_example : http_date 1780107649 ≡ render (weekday 20603) (calendar 20603) 8449
http_date-calendar_example = http_date-calendar 1780107649
