-- ===== src/LogLine/Printed.antt =====
-- A row of the DHCP audit log is read back by parseDHCPLine of dhcplog.go.
use network_enricher.Prelude.{
  ℕ, ◌≡◌, refl, ap, ◌∙◌, false, Option, some, List, ◌∷◌, ◌++◌, All, length, arith, Text, codes,
  is_empty, trim_space, trim_left_by, trim_right_by, split_byte, parse_uint, Time, ltb,
}
use network_enricher.Prelude.Int.{pos}
use network_enricher.Prelude.Splits.{IsFree, join_byte, split_byte-join_byte}
use network_enricher.LogLine.{parsed}
use network_enricher.LogLine.Dhcp.{
  atoi, is_lease_change, column, uint16, dhcp_event, dhcp_row, dhcp_numbered, parse_dhcp_line,
}
use network_enricher.Pseudonym.{Tokenizer}

pub data LeaseChange : Type 0 where
  assign : LeaseChange
  renew : LeaseChange
  release : LeaseChange

abbrev pub change_id : LeaseChange → ℕ
change_id assign = 10
change_id renew = 11
change_id release = 12

abbrev pub change_text : LeaseChange → Text
change_text assign = codes "10"
change_text renew = codes "11"
change_text release = codes "12"

-- The cells of a row, in the order of its columns; `more` are the columns that are not read.
pub record PrintedRow : Type 0 where
  pub change : LeaseChange
  pub date : Text
  pub clock : Text
  pub description : Text
  pub ip : Text
  pub host : Text
  pub mac : Text
  pub more : List Text

abbrev pub cells : PrintedRow → List Text
cells r = r.date ∷ r.clock ∷ r.description ∷ r.ip ∷ r.host ∷ r.mac ∷ r.more

unfoldable pub printed : PrintedRow → Text
unfolding join_byte
printed r = join_byte 44 (change_text r.change) (cells r)

read_change : (c : LeaseChange) → atoi (trim_space (change_text c)) ≡ some (pos (change_id c))
unfolding atoi trim_space trim_left_by trim_right_by parse_uint
read_change assign = refl
read_change renew = refl
read_change release = refl

change_text-IsFree : (c : LeaseChange) → IsFree 44 (change_text c)
change_text-IsFree assign = ((λ e. absurd (omega arith)), ((λ e. absurd (omega arith)), tt))
change_text-IsFree renew = ((λ e. absurd (omega arith)), ((λ e. absurd (omega arith)), tt))
change_text-IsFree release = ((λ e. absurd (omega arith)), ((λ e. absurd (omega arith)), tt))

printed_nonempty : (r : PrintedRow) → is_empty (printed r) ≡ false
unfolding printed join_byte
printed_nonempty r = go r.change
  where
    go : (c : LeaseChange) → is_empty (join_byte 44 (change_text c) (cells r)) ≡ false
    go assign = refl
    go renew = refl
    go release = refl

split_printed :
    (r : PrintedRow)
    → All (IsFree 44) (cells r)
    → split_byte 44 (printed r) ≡ change_text r.change ∷ cells r
unfolding printed
split_printed r free =
    split_byte-join_byte 44 (change_text r.change) (cells r) (change_text-IsFree r.change) free

long : (r : PrintedRow) (c : Text) → ltb (length (c ∷ cells r)) 7 ≡ false
long r c = ground arith

row_read :
    (tok : Tokenizer) (parse_time : Text → Option Time) (c : LeaseChange) (r : PrintedRow)
    → dhcp_row tok parse_time (pos (change_id c)) (change_text c ∷ cells r)
      ≡ dhcp_event tok parse_time
          (pos (change_id c))
          (change_text c ∷ cells r)
          (parse_time (trim_space r.date ++ codes " " ++ trim_space r.clock))
unfolding dhcp_row is_lease_change column
row_read tok parse_time assign r = rw (long r) refl
row_read tok parse_time renew r = rw (long r) refl
row_read tok parse_time release r = rw (long r) refl

small_id : (c : LeaseChange) → uint16 (pos (change_id c)) ≡ change_id c
unfolding uint16
small_id assign = refl
small_id renew = refl
small_id release = refl

-- The row has no comma in a cell and no white space at its ends, and its date and time parse. Then
-- parseDHCPLine reads from the printed row the change, the address, and the tokens of the device
-- and of the host that were printed.
pub parse_dhcp_line-printed :
    (tok : Tokenizer) (parse_time : Text → Option Time) (r : PrintedRow) (t : Time)
    → All (IsFree 44) (cells r)
    → trim_space (printed r) ≡ printed r
    → parse_time (trim_space r.date ++ codes " " ++ trim_space r.clock) ≡ some t
    → parse_dhcp_line tok parse_time (printed r)
      ≡ parsed (record {
        event_time = t;
        event_id = change_id r.change;
        ip = trim_space r.ip;
        mac_token = tok.mac_token r.mac;
        host_token = tok.host_token r.host;
      })
unfolding parse_dhcp_line dhcp_numbered dhcp_row dhcp_event
parse_dhcp_line-printed tok parse_time r t free ends time =
    rw (ends, printed_nonempty r, split_printed r free)
      (ap (dhcp_numbered tok parse_time (change_text r.change ∷ cells r)) (read_change r.change)
        ∙ row_read tok parse_time r.change r
        ∙ ap (dhcp_event tok parse_time (pos (change_id r.change)) (change_text r.change ∷ cells r))
            time
        ∙ rw (small_id r.change) refl)
