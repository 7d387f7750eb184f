-- ===== src/Agent/Tests.antt =====
-- Records as they are sent, and as they are read back.
use openwrt_configurator.Prelude.{Text, codes, none, some, List, [], ◌∷◌, map, ◌≡◌, refl}
use openwrt_configurator.Agent.{AgentRecord}
use openwrt_configurator.Agent.Decode.{decode_records}
use openwrt_configurator.Agent.Decode.Every.{read_back}
use openwrt_configurator.Agent.Decode.RoundTrip.{decode_records-encode_records}
use openwrt_configurator.Agent as Records
use openwrt_configurator.Agent.Encode.{encode_records}

sent_write :
    encode_records (
      Records.write (codes "/etc/a b") (codes "0644") (codes "x\ny") (some (codes "go"))
      ∷ Records.restart (codes "log") none
      ∷ [])
    ≡ some (codes "write 2 1 0644 /etc/a b\nx\ny\ngo\nrestart log\nend\n")
unfolding encode_records
sent_write = refl

refused_name : encode_records (Records.add (codes "a b") ∷ []) ≡ none
unfolding encode_records
refused_name = refl

abbrev told : List AgentRecord
told =
    Records.seed (codes "/etc/config/x y") (codes "config a")
    ∷ Records.remove (codes "dnsmasq")
    ∷ Records.write (codes "/etc/a") (codes "0755") (codes "a\nb\n") (some (codes "sh a"))
    ∷ Records.restart (codes "odhcpd") none
    ∷ Records.set (codes "system.a.b") (codes "two\nlines")
    ∷ Records.batch (codes "delete a.b" ∷ codes "set a.c='d'" ∷ [])
    ∷ []

abbrev told_text : Text
told_text =
    codes
      "seed 1 /etc/config/x y\nconfig a\nremove dnsmasq\nwrite 2 1 0755 /etc/a\na\nb\nsh a\nrestart odhcpd\nset 2 system.a.b\ntwo\nlines\nbatch 2\ndelete a.b\nset a.c='d'\nend\n"

told_encoded : encode_records told ≡ some told_text
unfolding encode_records
told_encoded = refl

decode_records-encode_records_example : decode_records told_text ≡ some (map read_back told)
decode_records-encode_records_example = decode_records-encode_records told told_text told_encoded

cut_short : decode_records (codes "remove dnsmasq\n") ≡ none
unfolding decode_records
cut_short = refl
