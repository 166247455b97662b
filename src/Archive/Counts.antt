-- ===== src/Archive/Counts.antt =====
-- minarx/archive.py: the numbers that `compact_capture` and `inspect_archive` report.
use hndl_dev.Prelude.{ℕ, ◌+◌, ◌≡◌, refl, sym, ap, ◌∙◌, length}
use hndl_dev.Prelude.Signed.{ℤ, pos, sub_ℕ, ◌+ℤ◌, ◌-ℤ◌, sub_ℕ-add, sub_ℕ-pos, sub_ℕ-less}
use hndl_dev.Container.Read.{Container}

-- The keys that `compact_capture` and `inspect_archive` both report, except those of the profile.
pub record Accounting : Type 0 where
  pub raw_capture_bytes : ℕ
  pub transport_payload_bytes : ℕ
  pub protocol_layout_bytes : ℕ
  pub stored_layout_bytes : ℕ
  pub opaque_bytes : ℕ
  pub archive_bytes : ℕ
  pub fixed_container_bytes : ℤ
  pub capture_envelope_bytes : ℤ
  pub clear_protocol_bytes : ℤ
  pub protocol_projection_saving_bytes : ℤ
  pub structural_baseline_bytes : ℤ
  pub structural_bytes_before_entropy_coding : ℤ
  pub structural_bytes_after_entropy_coding : ℤ
  pub deterministic_pruning_bytes : ℤ
  pub net_saving_before_layout_compression_bytes : ℤ
  pub layout_entropy_saving_bytes : ℤ
  pub total_structural_saving_bytes : ℤ

-- The numbers of `compact_capture`: raw, transport, opaque, archive, layout and stored layout bytes.
unfoldable pub capture_accounting : ℕ → ℕ → ℕ → ℕ → ℕ → ℕ → Accounting
capture_accounting raw transport opaque archive layout stored =
    let fixed = sub_ℕ archive opaque -ℤ pos stored in
    let clear = sub_ℕ transport opaque in
    let after = sub_ℕ archive opaque in
    let before = after +ℤ sub_ℕ layout stored in
    let baseline = sub_ℕ raw opaque in
    record {
      raw_capture_bytes = raw;
      transport_payload_bytes = transport;
      protocol_layout_bytes = layout;
      stored_layout_bytes = stored;
      opaque_bytes = opaque;
      archive_bytes = archive;
      fixed_container_bytes = fixed;
      capture_envelope_bytes = sub_ℕ raw transport;
      clear_protocol_bytes = clear;
      protocol_projection_saving_bytes = clear -ℤ pos layout;
      structural_baseline_bytes = baseline;
      structural_bytes_before_entropy_coding = before;
      structural_bytes_after_entropy_coding = after;
      deterministic_pruning_bytes = baseline -ℤ before;
      net_saving_before_layout_compression_bytes = pos raw -ℤ ((pos opaque +ℤ fixed) +ℤ pos layout);
      layout_entropy_saving_bytes = sub_ℕ layout stored;
      total_structural_saving_bytes = baseline -ℤ after;
    }

-- The numbers of `inspect_archive`.
unfoldable pub archive_accounting : Container → Accounting
archive_accounting c =
    let opaque = length c.opaque in
    let baseline = sub_ℕ c.raw_capture_bytes opaque in
    let before =
      (sub_ℕ c.archive_bytes opaque +ℤ pos (length c.layout)) -ℤ pos c.stored_layout_bytes in
    let after = sub_ℕ c.archive_bytes opaque in
    let fixed = sub_ℕ c.archive_bytes opaque -ℤ pos c.stored_layout_bytes in
    let clear = sub_ℕ c.transport_payload_bytes opaque in
    record {
      raw_capture_bytes = c.raw_capture_bytes;
      transport_payload_bytes = c.transport_payload_bytes;
      protocol_layout_bytes = length c.layout;
      stored_layout_bytes = c.stored_layout_bytes;
      opaque_bytes = opaque;
      archive_bytes = c.archive_bytes;
      fixed_container_bytes = fixed;
      capture_envelope_bytes = sub_ℕ c.raw_capture_bytes c.transport_payload_bytes;
      clear_protocol_bytes = clear;
      protocol_projection_saving_bytes = clear -ℤ pos (length c.layout);
      structural_baseline_bytes = baseline;
      structural_bytes_before_entropy_coding = before;
      structural_bytes_after_entropy_coding = after;
      deterministic_pruning_bytes = baseline -ℤ before;
      net_saving_before_layout_compression_bytes =
          pos c.raw_capture_bytes -ℤ ((pos opaque +ℤ fixed) +ℤ pos (length c.layout));
      layout_entropy_saving_bytes = sub_ℕ (length c.layout) c.stored_layout_bytes;
      total_structural_saving_bytes = baseline -ℤ after;
    }

-- Both orders of the three terms that `structural_bytes_before_entropy_coding` adds.
add_then_less : (a o l s : ℕ) → sub_ℕ a o +ℤ sub_ℕ l s ≡ (sub_ℕ a o +ℤ pos l) -ℤ pos s
add_then_less a o l s =
    sub_ℕ-add a o l s ∙ sym (ap (λ x. x -ℤ pos s) (sub_ℕ-pos a o l) ∙ sub_ℕ-less (a + l) o s)

archive_accounting-of :
    (c : Container)
    → capture_accounting c.raw_capture_bytes c.transport_payload_bytes
        (length c.opaque)
        c.archive_bytes
        (length c.layout)
        c.stored_layout_bytes
      ≡ archive_accounting c
unfolding capture_accounting archive_accounting
archive_accounting-of c =
    rw (add_then_less c.archive_bytes (length c.opaque) (length c.layout) c.stored_layout_bytes)
      refl

-- The numbers of both agree if what they are computed from does.
pub accounting_agrees :
    (raw transport opaque archive layout stored : ℕ) (d : Container)
    → d.raw_capture_bytes ≡ raw
    → d.transport_payload_bytes ≡ transport
    → length d.opaque ≡ opaque
    → d.archive_bytes ≡ archive
    → length d.layout ≡ layout
    → d.stored_layout_bytes ≡ stored
    → capture_accounting raw transport opaque archive layout stored ≡ archive_accounting d
accounting_agrees raw transport opaque archive layout stored d hr ht ho ha hl hs =
    let e = archive_accounting-of d in cc
