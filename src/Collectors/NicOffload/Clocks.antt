-- ===== src/Collectors/NicOffload/Clocks.antt =====
-- Which NICs are reported, and when the host has a PTP hardware clock.
use rewsr_maxfields.Base.{
  ◌≡◌, ◌∙◌, refl, Bool, true, false, not, ◌&&◌, ◌||◌, Option, none, some, List, [], ◌∷◌, ◌++◌,
  arith, Str, str, ◌==◌, str_eq, ==→≡, contains, any, is_empty, if◌then◌else◌,
}
use rewsr_maxfields.Base.Int.{ℤ, pos, negsuc}
use rewsr_maxfields.Collectors.Offload.{
  parse_ethtool_driver_info, parse_ethtool_max_current, parse_ethtool_timestamping,
}
use rewsr_maxfields.Base.Dict.{Dict, insert, lookup, lookup-insert, lookup-nil}
use rewsr_maxfields.Facts.Types.{ServerFacts}
use rewsr_maxfields.Facts.Build.{Result, ok, err}
use rewsr_maxfields.Collectors.Host.{Host, Tools, observed}
use rewsr_maxfields.Collectors.Sections.{NicOffloadFacts, Section, nic_offload}
use rewsr_maxfields.Collectors.NicOffload.{
  IpLinkEntry, is_ether, has_clock, offload_facts, offload_links, report_offload, offload_list,
  answer_offload, collect_offload,
}

module _ (t : Tools) where
  -- What `ethtool` with a flag says of a link: what is read from its output, or nothing where it fails.
  abbrev said : {A : Type 0} → Str → Str → (Str → A) → A → A
  said flag name read nothing = elim (t.run (str "ethtool") (flag ∷ name ∷ [])) [
    | ok out ↦ read out
    | err e ↦ nothing
  ]

  -- The driver, the rings, the channels and the clock come from four calls.
  abbrev pub said_of : Str → NicOffloadFacts
  said_of name = record {
    driver = said (str "-i") name parse_ethtool_driver_info [];
    rings_max = said (str "-g") name (λ out. (parse_ethtool_max_current out).max) [];
    rings_current = said (str "-g") name (λ out. (parse_ethtool_max_current out).current) [];
    channels_max = said (str "-l") name (λ out. (parse_ethtool_max_current out).max) [];
    channels_current = said (str "-l") name (λ out. (parse_ethtool_max_current out).current) [];
    timestamp_caps = said (str "-T") name (λ out. (parse_ethtool_timestamping out).caps) [];
    phc_index = said (str "-T") name (λ out. (parse_ethtool_timestamping out).phc_index) (negsuc 0);
  }

  offload_facts_lem : (name : Str) → offload_facts t name ≡ said_of name
  unfolding offload_facts
  offload_facts_lem name = ground arith

  -- An index that is not negative.
  abbrev is_index : ℤ → Bool
  is_index (pos n) = true
  is_index (negsuc n) = false

  -- An ethernet link with a clock, and one with a name.
  abbrev pub clocked : IpLinkEntry → Bool
  clocked link = link.link_type == str "ether" && is_index (said_of link.if_name).phc_index

  abbrev pub is_nic : Str → IpLinkEntry → Bool
  is_nic name link = link.link_type == str "ether" && name == link.if_name

  offload_links_lem :
      (name : Str) (links : List IpLinkEntry) (d : Dict Str NicOffloadFacts) (saw : Bool)
      → ((offload_links t links d saw).1 ≡ (saw || any clocked links))
        × (lookup name (offload_links t links d saw).0
            ≡ (if any (is_nic name) links then some (said_of name) else lookup name d))
  unfolding offload_links
  offload_links_lem name [] d saw = ground arith
  offload_links_lem name (link ∷ links) d saw =
      let entry = offload_facts t link.if_name in
      ground (
        arith,
        ==→≡ name link.if_name,
        offload_facts_lem name,
        offload_facts_lem link.if_name,
        lookup-insert name link.if_name entry d,
        offload_links_lem name links d saw,
        offload_links_lem name links (insert link.if_name entry d)
            (if has_clock entry then true else saw),
      )

  insert_nonempty :
      (k : Str) (v : NicOffloadFacts) (d : Dict Str NicOffloadFacts)
      → is_empty (insert k v d) ≡ false
  unfolding insert
  insert_nonempty k v [] = refl
  insert_nonempty k v ((j, w) ∷ d) = ground arith

  offload_links_empty :
      (links : List IpLinkEntry) (d : Dict Str NicOffloadFacts) (saw : Bool)
      → is_empty (offload_links t links d saw).0 ≡ (is_empty d && not (any is_ether links))
  unfolding offload_links
  offload_links_empty [] d saw = ground arith
  offload_links_empty (link ∷ links) d saw =
      let entry = offload_facts t link.if_name in
      ground (
        arith,
        insert_nonempty link.if_name entry d,
        offload_links_empty links d saw,
        offload_links_empty links (insert link.if_name entry d)
            (if has_clock entry then true else saw),
      )

  clocked-is_ether :
      (links : List IpLinkEntry) → any is_ether links ≡ false → any clocked links ≡ false
  clocked-is_ether [] h = refl
  clocked-is_ether (link ∷ links) h = ground (arith, h, clocked-is_ether links)

module _ (decode : Str → Result (List IpLinkEntry)) (t : Tools) (h : Host) where
  -- What the collector returns, by the links that are listed or the error.
  abbrev pub OffloadReported :
      Result (List IpLinkEntry)
      → Option (ServerFacts Section) × Option Str
      → ServerFacts Section
      → Type 0
  OffloadReported (err e) r f =
      (r.1 ≡ some (str "nic offload collector: " ++ e)) × (f.capabilities ≡ []) × (f.raw ≡ some [])
  OffloadReported (ok links) r f =
      (r.1 ≡ none)
      × ((c : Str)
          → contains c f.capabilities ≡ (c == str "ptp_hardware_clock" && any (clocked t) links))
      × ((per_nic : Dict Str NicOffloadFacts) × (f.raw
            ≡ some
                (if any is_ether links then (str "nic_offload", nic_offload per_nic) ∷ [] else []))
          × ((name : Str)
              → lookup name per_nic
                ≡ (if any (is_nic t name) links then some (said_of t name) else none)))

  -- The offload collector, with a runner, always returns facts. Where the links can be listed it returns no
  -- error. Where one is an ethernet link, `Raw` then holds the section "nic_offload" and nothing else, and in
  -- it, for exactly the names of the ethernet links, what the four calls of ethtool say of the link, empty
  -- where a call fails; without one `Raw` is empty. It reports the capability "ptp_hardware_clock", and
  -- nothing else, exactly when an ethernet link has a clock. Where the links cannot be listed it returns the
  -- error, an empty `Raw` and no capability.
  pub collect_offload_lem :
      (id : Str)
      → (f : ServerFacts Section) × ((collect_offload decode (some t) h id).0 ≡ some f)
        × OffloadReported (offload_list decode t) (collect_offload decode (some t) h id) f
  unfolding collect_offload
  collect_offload_lem id = go (offload_list decode t)
    where
      bare :
          ((observed {V = Section} (str "linux_nic_offload") h id).capabilities ≡ [])
          × ((observed {V = Section} (str "linux_nic_offload") h id).raw ≡ some [])
      bare = unfold observed in (refl, refl)

      go :
          (r : Result (List IpLinkEntry))
          → (f : ServerFacts Section) × ((answer_offload r t h id).0 ≡ some f)
            × OffloadReported r (answer_offload r t h id) f
      go (err e) = unfold answer_offload in (_, refl, (refl, bare.0, bare.1))
      go (ok links) =
          unfold answer_offload report_offload in
          (
            _,
            refl,
            (
              refl,
              (λ c. ground (
                arith,
                bare.0,
                offload_links_empty t links [] false,
                (offload_links_lem t c links [] false).0,
                clocked-is_ether t links,
              )),
              (
                (offload_links t links [] false).0,
                ground (arith, bare.1, offload_links_empty t links [] false),
                λ name. (offload_links_lem t name links [] false).1 ∙ rw lookup-nil refl,
              ),
            ),
          )
