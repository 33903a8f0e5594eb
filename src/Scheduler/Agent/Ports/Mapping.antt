-- ===== src/Scheduler/Agent/Ports/Mapping.antt =====
-- persys-scheduler/internal/scheduler/agent_grpc.go and Go's strconv: a mapping of two numbers in
-- decimal, read.
use Prim.Native.String.{char_at}
use text.Mathlib.TextLemmas.{nil-append, cons-append}
use persys_cloud.Prelude.{ℕ, ◌%◌, ◌^◌, ◌<◌, String, ◌≡◌, refl, ◌∙◌, ap, false, ◌==◌, [], ◌∷◌, ok}
use persys_cloud.Text.{concat, trim_space}
use persys_cloud.Scheduler.Services.{Formats}
use persys_cloud.Scheduler.Agent.Ports.{parse_port_mapping}
use persys_cloud.Text.Split.{split_char}
use persys_cloud.Text.Split.Decimal.{
  decimal, split_when-Avoids, split_when-append, atoi-decimal, trim_space-Numeric,
  contains_char-Avoids, decimal-Numeric, decimal-Avoids, no_colon, no_slash,
}

mapping_pieces :
    (h c : ℕ)
    → split_char b':' (concat (decimal h ∷ ":" ∷ decimal c ∷ [])) ≡ decimal h ∷ decimal c ∷ []
unfolding concat
mapping_pieces h c =
    rw (cons-append (char_at ":" 0) String.[] (decimal c), nil-append (decimal c))
      (split_when-append _ (decimal h) (char_at ":" 0) (decimal c) (decimal-Avoids b':' h no_colon)
          refl
        ∙ ap (λ l. decimal h ∷ l)
            (split_when-Avoids _ (decimal c) (decimal-Avoids b':' c no_colon)))

mapping_nonblank :
    (h c : ℕ) → (trim_space (concat (decimal h ∷ ":" ∷ decimal c ∷ [])) == "") ≡ false
unfolding concat
mapping_nonblank h c = trim_space-Numeric (decimal h) _ (decimal-Numeric h)

module _ ⦃T : Formats⦄ where
  -- A port mapping of two numbers in decimal, each below 2 ^ 63, with a colon between them, is read as these
  -- numbers and tcp. The numbers go to the agent in 32 bits: one of 2 ^ 32 or more loses its upper bits
  -- without an error.
  pub parse_port_mapping-decimal :
      (h c : ℕ)
      → h < 2 ^ 63
      → c < 2 ^ 63
      → parse_port_mapping (concat (decimal h ∷ ":" ∷ decimal c ∷ []))
        ≡ ok (record { host_port = h % 2 ^ 32; container_port = c % 2 ^ 32; protocol = "tcp" })
  unfolding parse_port_mapping
  parse_port_mapping-decimal h c lh lc =
      rw
        (
          mapping_nonblank h c,
          mapping_pieces h c,
          contains_char-Avoids b'/' (decimal c) (decimal-Avoids b'/' c no_slash),
          atoi-decimal T.quote h lh,
          atoi-decimal T.quote c lc,
        )
        refl
