-- ===== src/Collectors/Rdma/Listing.antt =====
-- Which tool lists the RDMA ports, and when that is an error.
use mathlib.Core.Path.{subst}
use rewsr_maxfields.Collectors.Devinfo.{parse_ibv_devinfo}
use rewsr_maxfields.Base.{
  ◌++◌, ◌≡◌, refl, sym, Option, none, some, List, [], ◌∷◌, arith, map, Str, str, str_eq,
}
use rewsr_maxfields.Facts.Build.{Result, ok, err}
use rewsr_maxfields.Collectors.Host.{Tools, require_command}
use rewsr_maxfields.Collectors.Sections.{RdmaDevice}
use rewsr_maxfields.Collectors.Rdma.{
  RdmaLinkEntry, list_devices, gather, device_of_entry, parse_rdma_link_json,
}

module _ (decode : Str → Result (List RdmaLinkEntry)) where
  -- How the ports are listed: `rdma`, where it is on the path, decides alone; `ibv_devinfo` is asked where
  -- only that is; a run that fails and a text that is not decoded are errors.
  pub data Lists (t : Tools) : Result (List RdmaDevice) → Type 0 where
    by_rdma :
        {out : Str} {entries : List RdmaLinkEntry}
        → t.look_path (str "rdma") ≡ none
        → t.run (str "rdma") (str "link" ∷ str "show" ∷ str "-j" ∷ []) ≡ ok out
        → decode out ≡ ok entries
        → Lists t (ok (map device_of_entry entries))
    bad_text :
        {out e : Str}
        → t.look_path (str "rdma") ≡ none
        → t.run (str "rdma") (str "link" ∷ str "show" ∷ str "-j" ∷ []) ≡ ok out
        → decode out ≡ err e
        → Lists t (err (str "rdma collector: " ++ e))
    failed_rdma :
        {e : Str}
        → t.look_path (str "rdma") ≡ none
        → t.run (str "rdma") (str "link" ∷ str "show" ∷ str "-j" ∷ []) ≡ err e
        → Lists t (err (str "rdma collector: " ++ e))
    by_devinfo :
        {e out : Str}
        → t.look_path (str "rdma") ≡ some e
        → t.look_path (str "ibv_devinfo") ≡ none
        → t.run (str "ibv_devinfo") [] ≡ ok out
        → Lists t (ok (parse_ibv_devinfo out))
    failed_devinfo :
        {d e : Str}
        → t.look_path (str "rdma") ≡ some d
        → t.look_path (str "ibv_devinfo") ≡ none
        → t.run (str "ibv_devinfo") [] ≡ err e
        → Lists t (err (str "rdma collector: " ++ e))
    no_tool :
        {d e : Str}
        → t.look_path (str "rdma") ≡ some d
        → t.look_path (str "ibv_devinfo") ≡ some e
        → Lists t (
            err (
              str "rdma collector: "
              ++ ((str "rdma" ++ (str " not found: " ++ d))
                  ++ (str "; " ++ (str "ibv_devinfo" ++ (str " not found: " ++ e))))))

  pub list_devices-Lists : (t : Tools) → Lists t (list_devices decode (some t))
  unfolding list_devices gather require_command parse_rdma_link_json
  list_devices-Lists t =
      choose (t.look_path (str "rdma")) (t.look_path (str "ibv_devinfo")) refl refl
    where
      listed :
          {r : Result (List RdmaDevice)}
          → Lists t r
          → list_devices decode (some t) ≡ r
          → Lists t (list_devices decode (some t))
      listed l e = subst (Lists t) (sym e) l

      decoded :
          (out : Str) (r : Result (List RdmaLinkEntry))
          → t.look_path (str "rdma") ≡ none
          → t.run (str "rdma") (str "link" ∷ str "show" ∷ str "-j" ∷ []) ≡ ok out
          → decode out ≡ r
          → Lists t (list_devices decode (some t))
      decoded out (ok entries) a b e = listed (by_rdma a b e) (ground (arith, a, b, e))
      decoded out (err m) a b e = listed (bad_text a b e) (ground (arith, a, b, e))

      ran :
          (r : Result Str)
          → t.look_path (str "rdma") ≡ none
          → t.run (str "rdma") (str "link" ∷ str "show" ∷ str "-j" ∷ []) ≡ r
          → Lists t (list_devices decode (some t))
      ran (ok out) a e = decoded out (decode out) a e refl
      ran (err m) a e = listed (failed_rdma a e) (ground (arith, a, e))

      ran_devinfo :
          (d : Str) (r : Result Str)
          → t.look_path (str "rdma") ≡ some d
          → t.look_path (str "ibv_devinfo") ≡ none
          → t.run (str "ibv_devinfo") [] ≡ r
          → Lists t (list_devices decode (some t))
      ran_devinfo d (ok out) a b e = listed (by_devinfo a b e) (ground (arith, a, b, e))
      ran_devinfo d (err m) a b e = listed (failed_devinfo a b e) (ground (arith, a, b, e))

      choose :
          (r v : Option Str)
          → t.look_path (str "rdma") ≡ r
          → t.look_path (str "ibv_devinfo") ≡ v
          → Lists t (list_devices decode (some t))
      choose none v a b = ran (t.run (str "rdma") (str "link" ∷ str "show" ∷ str "-j" ∷ [])) a refl
      choose (some d) none a b = ran_devinfo d (t.run (str "ibv_devinfo") []) a b refl
      choose (some d) (some e) a b = listed (no_tool a b) (ground (arith, a, b))
