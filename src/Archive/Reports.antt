-- ===== src/Archive/Reports.antt =====
-- minarx/archive.py: what `inspect_archive` and `materialize_archive` find in an archive that
-- `compact_capture` made.
use mathlib.Core.Path.{subst}
use hndl_dev.Prelude.{
  ℕ, ◌≤◌, ◌≡◌, refl, sym, ap, ◌∙◌, String, not, Option, some, List, ◌==◌, length, arith,
}
use hndl_dev.Prelude.Signed.{sub_ℕ}
use hndl_dev.Result.{ok, archive_fault, accounting_mismatch, refuse-then, >>=-eq-ok}
use hndl_dev.Binary.{Bytes}
use hndl_dev.Pcap.{Chunk}
use hndl_dev.Chunks.{CaptureFile}
use hndl_dev.Profiles.{Selector, profile_named, resolve_profile}
use hndl_dev.Profiles.Registry.{ProtocolProfile}
use hndl_dev.Profiles.Resolution.{resolve_profile-for_mode}
use hndl_dev.Container.{Library, IsLibrary, compress, write_container, max_archive_payload}
use hndl_dev.Container.Read.{Container, read_container}
use hndl_dev.Container.RoundTrip.{Restored, write_container-Restored}
use hndl_dev.Archive.Counts.{capture_accounting, archive_accounting, accounting_agrees}
use hndl_dev.Archive.{
  CodecOutput, Codec, totals, CaptureReport, ArchiveReport, store, inspect_archive, expand,
  materialize_archive, select, compact_capture, mode_or, default_mode, port_or, default_port,
}

-- What a successful `store` has written, and its report.
record Stored (lib : Library) (selected : ProtocolProfile) (port : ℕ) (c : CodecOutput)
    (encoded : Bytes) (report : CaptureReport) : Type 0 where
  restored :
      Restored lib selected port
        (totals c.captures).raw_capture_bytes
        (totals c.captures).transport_payload_bytes
        c.layout
        c.opaque
        encoded
  profile : report.profile ≡ selected
  accounting : report.accounting ≡ archive_accounting restored.container

module _ (lib : Library) (law : IsLibrary lib) (protocol mode : String) (selected : ProtocolProfile)
    (port : ℕ) (c : CodecOutput) (compression : String) (encoded : Bytes) (report : CaptureReport)
    (fits : (d : ℕ × Bytes)
      → compress lib c.layout compression ≡ ok d
      → length d.1 ≤ max_archive_payload)
    (run : store lib protocol mode selected port c compression ≡ ok (encoded, report)) where
  store-Stored : Stored lib selected port c encoded report
  unfolding store
  store-Stored =
      let t = totals c.captures in
      let (counted, h1) =
        refuse-then (not (t.opaque_bytes == length c.opaque)) (archive_fault accounting_mismatch) _
          run in
      let (written, writes, h2) =
        >>=-eq-ok
          (write_container lib selected port t.raw_capture_bytes t.transport_payload_bytes c.layout
            c.opaque compression)
          _ h1 in
      let (found, reads, h3) = >>=-eq-ok (read_container lib written max_archive_payload) _ h2 in
      let wrote : written ≡ encoded = cc in
      let r =
        write_container-Restored lib selected port t.raw_capture_bytes t.transport_payload_bytes
          c.layout c.opaque compression encoded law fits
          (subst
            (λ e.
              write_container lib selected port t.raw_capture_bytes t.transport_payload_bytes
                c.layout c.opaque compression
              ≡ ok e)
            wrote writes) in
      let reads' : read_container lib encoded max_archive_payload ≡ ok found =
        subst (λ e. read_container lib e max_archive_payload ≡ ok found) wrote reads in
      let read = r.read in
      let same : found ≡ r.container = cc in
      let count : t.opaque_bytes ≡ length c.opaque = ground arith in
      let reported : reported_by written found ≡ report = cc in
      record {
        restored = r;
        profile = sym (ap (λ x. x.profile) reported);
        accounting =
            sym (ap (λ x. x.accounting) reported)
            ∙ ap
                (λ n.
                  capture_accounting t.raw_capture_bytes t.transport_payload_bytes n
                    (length written) (length c.layout) found.stored_layout_bytes)
                count
            ∙ accounting_agrees t.raw_capture_bytes t.transport_payload_bytes (length c.opaque)
                (length written) (length c.layout) found.stored_layout_bytes r.container
                r.raw_capture_bytes r.transport_payload_bytes (ap length r.opaque_back)
                (r.archive_bytes ∙ ap length (sym wrote)) (ap length r.layout_back)
                (ap (λ x. x.stored_layout_bytes) (sym same));
      }
    where
      reported_by : Bytes → Container → CaptureReport
      reported_by written found =
          let t = totals c.captures in
          record {
            protocol = protocol;
            mode = mode;
            profile = selected;
            accounting =
                capture_accounting t.raw_capture_bytes t.transport_payload_bytes t.opaque_bytes
                  (length written) (length c.layout) found.stored_layout_bytes;
            bytes_saved_vs_raw = sub_ℕ t.raw_capture_bytes (length written);
          }

-- The registered profile comes back whole.
container-registered :
    (lib : Library) (selected : ProtocolProfile) {port : ℕ} (c : CodecOutput) (encoded : Bytes)
    (report : CaptureReport) (s : Stored lib selected port c encoded report)
    → profile_named selected.name ≡ some selected
    → s.restored.container.profile ≡ selected
container-registered lib selected c encoded report s registered =
    let found = s.restored.registered in cc

compact_capture-Stored :
    (lib : Library) (codecs : String → Option Codec) (codec : Codec) (files : List CaptureFile)
    (protocol : String) (mode : Option String) (port : Option ℕ) (profile : Selector)
    (compression : String) (selected : ProtocolProfile) (c : CodecOutput) (encoded : Bytes)
    (report : CaptureReport)
    → IsLibrary lib
    → codecs protocol ≡ some codec
    → select codec protocol (mode_or mode (default_mode protocol)) profile files ≡ ok (selected, c)
    → ((d : ℕ × Bytes)
        → compress lib c.layout compression ≡ ok d
        → length d.1 ≤ max_archive_payload)
    → compact_capture lib codecs files protocol mode port profile compression ≡ ok (encoded, report)
    → Stored lib selected (port_or port (default_port protocol)) c encoded report
unfolding compact_capture
compact_capture-Stored lib codecs codec files protocol mode port profile compression selected c
      encoded report law entry selects fits run =
    store-Stored lib law protocol (mode_or mode (default_mode protocol)) selected
      (port_or port (default_port protocol)) c compression encoded report fits
      (rw (entry, selects) at run)

-- An archive that `compact_capture` made of a selection is inspected with the report that
-- `compact_capture` returned: the same numbers, the same profile, and the port that was chosen. The
-- selected profile is the registered one, and the stored layout is within the limit of a section.
pub inspect_archive-compact_capture :
    (lib : Library) (codecs : String → Option Codec) (codec : Codec) (files : List CaptureFile)
    (protocol : String) (mode : Option String) (port : Option ℕ) (profile : Selector)
    (compression : String) (selected : ProtocolProfile) (c : CodecOutput) (encoded : Bytes)
    (report : CaptureReport)
    → IsLibrary lib
    → codecs protocol ≡ some codec
    → select codec protocol (mode_or mode (default_mode protocol)) profile files ≡ ok (selected, c)
    → profile_named selected.name ≡ some selected
    → ((d : ℕ × Bytes)
        → compress lib c.layout compression ≡ ok d
        → length d.1 ≤ max_archive_payload)
    → compact_capture lib codecs files protocol mode port profile compression ≡ ok (encoded, report)
    → (r : ArchiveReport) × (inspect_archive lib encoded ≡ ok r)
      × (r.accounting ≡ report.accounting)
      × (r.profile ≡ report.profile)
      × (r.server_port ≡ port_or port (default_port protocol))
unfolding inspect_archive
inspect_archive-compact_capture lib codecs codec files protocol mode port profile compression
      selected c encoded report law entry selects registered fits run =
    let s =
      compact_capture-Stored lib codecs codec files protocol mode port profile compression selected
        c encoded report law entry selects fits run in
    let r = s.restored in
    let same = container-registered lib selected c encoded report s registered in
    (
      record {
        server_port = r.container.server_port;
        profile = r.container.profile;
        accounting = archive_accounting r.container;
        compression = r.container.compression;
      },
      rw r.read refl,
      sym s.accounting,
      same ∙ sym s.profile,
      r.server_port,
    )

-- Materializing an archive that `compact_capture` made runs the codec of the protocol on what its
-- `compact` returned, with the mode that was chosen.
pub materialize_archive-compact_capture :
    (lib : Library) (codecs : String → Option Codec) (codec : Codec) (files : List CaptureFile)
    (protocol : String) (mode : Option String) (port : Option ℕ) (profile : Selector)
    (compression : String) (selected : ProtocolProfile) (c : CodecOutput) (encoded : Bytes)
    (report : CaptureReport) (css : List (List Chunk))
    → IsLibrary lib
    → codecs protocol ≡ some codec
    → resolve_profile protocol (mode_or mode (default_mode protocol)) profile ≡ ok selected
    → codec.compact (mode_or mode (default_mode protocol)) selected files ≡ ok c
    → profile_named selected.name ≡ some selected
    → ((d : ℕ × Bytes)
        → compress lib c.layout compression ≡ ok d
        → length d.1 ≤ max_archive_payload)
    → compact_capture lib codecs files protocol mode port profile compression ≡ ok (encoded, report)
    → codec.materialize c.layout c.opaque (mode_or mode (default_mode protocol)) ≡ ok css
    → (r : ArchiveReport) × (materialize_archive lib codecs encoded ≡ ok (css, r))
      × (inspect_archive lib encoded ≡ ok r)
unfolding materialize_archive expand select
materialize_archive-compact_capture lib codecs codec files protocol mode port profile compression
      selected c encoded report css law entry resolved compacts registered fits run expands =
    let selects : select codec protocol (mode_or mode (default_mode protocol)) profile files
        ≡ ok (selected, c) =
      rw (resolved, compacts) refl in
    let s =
      compact_capture-Stored lib codecs codec files protocol mode port profile compression selected
        c encoded report law entry selects fits run in
    let r = s.restored in
    let same = container-registered lib selected c encoded report s registered in
    let (of_protocol, of_mode) = resolve_profile-for_mode protocol _ profile selected resolved in
    let (manifest, inspected, numbers, found, port_back) =
      inspect_archive-compact_capture lib codecs codec files protocol mode port profile compression
        selected c encoded report law entry selects registered fits run in
    (
      manifest,
      rw
          (
            r.read, same, of_protocol, entry, r.layout_back, r.opaque_back, of_mode, expands,
            inspected,
          )
          refl,
      inspected,
    )
