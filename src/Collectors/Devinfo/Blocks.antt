-- ===== src/Collectors/Devinfo/Blocks.antt =====
-- What `ibv_devinfo` prints of adapters with ports, and that `parseIbvDevinfo` reads it back.
use rewsr_maxfields.Base.{
  ℕ, ◌≡◌, ◌∙◌, refl, sym, ap, true, false, none, some, List, [], ◌∷◌, ◌++◌, append-nil,
  append_assoc, map, arith, Str, str, ◌==◌, nat_eq, str_eq, All,
}
use rewsr_maxfields.Text.Cut.{cut, cut-append}
use rewsr_maxfields.Text.Decimal.{atoi_value}
use rewsr_maxfields.Text.Space.{is_space, trim_space}
use rewsr_maxfields.Text.Space.Trimmed.{trim_space-append}
use rewsr_maxfields.Text.Split.{Lacks}
use rewsr_maxfields.Collectors.Sections.{RdmaDevice}
use rewsr_maxfields.Collectors.Devinfo.{
  Devinfo, trim_parenthetical, normalize_ibv_port_state, flush, open_port, devinfo_entry,
  no_devinfo, parse_ibv_devinfo,
}
use rewsr_maxfields.Collectors.Devinfo.Entries.{
  Line, IsLine, print_lines, known_pairs, run_pairs, devinfo_lines_lem,
}

-- A port block as it is printed, with a code behind the state in parentheses.
pub record Port : Type 0 where
  pub number : Str
  pub state : Str
  pub state_code : Str
  pub link_layer : Str

pub record Hca : Type 0 where
  pub id : Str
  pub transport : Str
  pub transport_code : Str
  pub fw_ver : Str
  pub ports : List Port

abbrev coded : Str → Str → Str
coded text code = text ++ b' ' ∷ b'(' ∷ (code ++ b')' ∷ [])

abbrev port_pairs : List Port → List (Str × Str) → List (Str × Str)
port_pairs [] rest = rest
port_pairs (p ∷ ports) rest =
    (str "port", p.number)
    ∷ (str "state", coded p.state p.state_code)
    ∷ (str "link_layer", p.link_layer)
    ∷ port_pairs ports rest

-- The known keys of the stanzas, in the order in which they are printed.
abbrev pub hca_pairs : List Hca → List (Str × Str)
hca_pairs [] = []
hca_pairs (h ∷ hcas) =
    (str "hca_id", h.id)
    ∷ (str "transport", coded h.transport h.transport_code)
    ∷ (str "fw_ver", h.fw_ver)
    ∷ port_pairs h.ports (hca_pairs hcas)

-- The device that a port stands for.
abbrev port_device : Hca → Port → RdmaDevice
port_device h p = record {
  device = h.id;
  port = atoi_value p.number;
  state = normalize_ibv_port_state p.state;
  physical_state = [];
  netdev = [];
  link_layer = p.link_layer;
  transport = h.transport;
  firmware_ver = h.fw_ver;
}

abbrev pub hca_devices : List Hca → List RdmaDevice
hca_devices [] = []
hca_devices (h ∷ hcas) = map (port_device h) h.ports ++ hca_devices hcas

-- Trimmed, and without a parenthesis.
abbrev IsPlain : Str → Type 0
IsPlain s = Lacks b'(' s × (trim_space s ≡ s)

abbrev PlainPorts : List Port → Type 0
PlainPorts = All (λ (p : Port). IsPlain p.state)

abbrev pub PlainHcas : List Hca → Type 0
PlainHcas = All (λ (h : Hca). IsPlain h.transport × PlainPorts h.ports)

spaces_and_marks : (is_space b' ' ≡ true) × (◌==◌ {A = ℕ} b' ' b'(' ≡ false)
unfolding is_space nat_eq
spaces_and_marks = (refl, refl)

Lacks-append : (sep : ℕ) (s t : Str) → Lacks sep s → Lacks sep t → Lacks sep (s ++ t)
Lacks-append sep [] t h k = k
Lacks-append sep (c ∷ s) t (hc, h) k = (hc, Lacks-append sep s t h k)

trim_parenthetical_lem : (s code : Str) → IsPlain s → trim_parenthetical (coded s code) ≡ s
unfolding trim_parenthetical
trim_parenthetical_lem s code (lacks, trimmed) =
    let apart : cut b'(' (coded s code) ≡ (s ++ b' ' ∷ [], code ++ b')' ∷ [], true) =
      ap (cut b'(') (sym (append_assoc s (b' ' ∷ []) _))
      ∙ cut-append b'(' (s ++ b' ' ∷ []) (code ++ b')' ∷ [])
          (Lacks-append b'(' s (b' ' ∷ []) lacks (spaces_and_marks.1, tt)) in
    rw (apart, trim_parenthetical) (trim_space-append s b' ' spaces_and_marks.0 ∙ trimmed)

port_block :
    (p : Port) (d : Devinfo)
    → IsPlain p.state
    → devinfo_entry (str "link_layer") p.link_layer (
        devinfo_entry
          (str "state")
          (coded p.state p.state_code)
          (devinfo_entry (str "port") p.number d))
      ≡ record (flush d) {
        cur = some (record (open_port p.number d) {
          state = normalize_ibv_port_state p.state;
          link_layer = p.link_layer;
        });
      }
unfolding devinfo_entry str str_eq
port_block p d h = rw (trim_parenthetical_lem p.state p.state_code h) refl

hca_block :
    (h : Hca) (d : Devinfo)
    → IsPlain h.transport
    → devinfo_entry (str "fw_ver") h.fw_ver (
        devinfo_entry
          (str "transport")
          (coded h.transport h.transport_code)
          (devinfo_entry (str "hca_id") h.id d))
      ≡ record (flush d) { hca = h.id; transport = h.transport; fw_ver = h.fw_ver }
unfolding devinfo_entry str str_eq
hca_block h d plain = rw (trim_parenthetical_lem h.transport h.transport_code plain) refl

-- The state of the loop inside the stanza of an adapter.
record Inside (h : Hca) (d : Devinfo) : Type 0 where
  hca : d.hca ≡ h.id
  transport : d.transport ≡ h.transport
  fw_ver : d.fw_ver ≡ h.fw_ver

after_ports : Hca → List Port → Devinfo → Devinfo
after_ports h [] d = d
after_ports h (p ∷ ports) d =
    after_ports h ports (record (flush d) { cur = some (port_device h p) })

module _ (h : Hca) where
  open_port_lem :
      (p : Port) (d : Devinfo)
      → Inside h d
      → ◌≡◌ {A = RdmaDevice}
          (record (open_port p.number d) {
            state = normalize_ibv_port_state p.state;
            link_layer = p.link_layer;
          })
          (port_device h p)
  unfolding open_port
  open_port_lem p d i = rw (i.hca, i.transport, i.fw_ver) refl

  flush_keeps :
      (d : Devinfo)
      → ((flush d).hca ≡ d.hca)
        × ((flush d).transport ≡ d.transport)
        × ((flush d).fw_ver ≡ d.fw_ver)
  unfolding flush
  flush_keeps d = ground arith

  ports_lem :
      (ports : List Port) (rest : List (Str × Str)) (d : Devinfo)
      → Inside h d
      → PlainPorts ports
      → run_pairs (port_pairs ports rest) d ≡ run_pairs rest (after_ports h ports d)
  unfolding run_pairs after_ports
  ports_lem [] rest d i plain = refl
  ports_lem (p ∷ ports) rest d i (hp, plain) =
      let (hca, transport, fw_ver) = flush_keeps d in
      ap (run_pairs (port_pairs ports rest)) (
        port_block p d hp ∙ ap (λ port. record (flush d) { cur = some port }) (open_port_lem p d i))
      ∙ ports_lem ports rest _
          (record {
            hca = hca ∙ i.hca;
            transport = transport ∙ i.transport;
            fw_ver = fw_ver ∙ i.fw_ver;
          })
          plain

  after_ports-devices :
      (ports : List Port) (d : Devinfo)
      → (flush (after_ports h ports d)).devices ≡ (flush d).devices ++ map (port_device h) ports
  unfolding after_ports flush
  after_ports-devices [] d = sym (append-nil (flush d).devices)
  after_ports-devices (p ∷ ports) d =
      after_ports-devices ports _
      ∙ append_assoc (flush d).devices (port_device h p ∷ []) (map (port_device h) ports)

flush_twice : (d : Devinfo) → (flush d).cur ≡ none
unfolding flush
flush_twice d = ground arith

flush_closed : (d : Devinfo) → d.cur ≡ none → (flush d).devices ≡ d.devices
unfolding flush
flush_closed d e = ground arith

hcas_lem :
    (hcas : List Hca) (d : Devinfo)
    → PlainHcas hcas
    → (flush (run_pairs (hca_pairs hcas) d)).devices ≡ (flush d).devices ++ hca_devices hcas
unfolding run_pairs
hcas_lem [] d h = sym (append-nil (flush d).devices)
hcas_lem (h ∷ hcas) d ((plain, ports), more) =
    let inside : Devinfo = record (flush d) {
      hca = h.id;
      transport = h.transport;
      fw_ver = h.fw_ver;
    } in
    let closed : (flush inside).devices ≡ (flush d).devices = flush_closed inside (flush_twice d) in
    ap (λ d. (flush (run_pairs (port_pairs h.ports (hca_pairs hcas)) d)).devices)
      (hca_block h d plain)
    ∙ ap (λ d. (flush d).devices)
        (ports_lem h h.ports (hca_pairs hcas) inside
          (record { hca = refl; transport = refl; fw_ver = refl }) ports)
    ∙ hcas_lem hcas (after_ports h h.ports inside) more
    ∙ ap (λ ds. ds ++ hca_devices hcas)
        (after_ports-devices h h.ports inside ∙ ap (λ ds. ds ++ map (port_device h) h.ports) closed)
    ∙ append_assoc (flush d).devices (map (port_device h) h.ports) (hca_devices hcas)

-- Any lines of keys and values, with any other keys, empty lines and lines without a colon between them,
-- in which the known keys are those of some adapters as `ibv_devinfo` prints them, are read as one device for
-- each port in the printed order, with the adapter, the transport and the firmware of the stanza that the
-- port stands in, and the state without its code and prefix in upper case. Keys and values are trimmed
-- and in one line, with any tabs around them, and a transport and a state have no parenthesis but that of
-- their code.
pub parse_ibv_devinfo-print_lines :
    (lines : List Line) (hcas : List Hca)
    → All IsLine lines
    → known_pairs lines ≡ hca_pairs hcas
    → PlainHcas hcas
    → parse_ibv_devinfo (print_lines lines) ≡ hca_devices hcas
unfolding parse_ibv_devinfo
parse_ibv_devinfo-print_lines lines hcas h e plain =
    ap (λ d. (flush d).devices)
      (devinfo_lines_lem lines no_devinfo h ∙ ap (λ ps. run_pairs ps no_devinfo) e)
    ∙ hcas_lem hcas no_devinfo plain
    ∙ unfold flush in refl
