-- ===== src/Tests/Renderings.antt =====
-- The theorems about rendered contexts, at a concrete context.
use chora_mem.Prelude.{
  [], ◌∷◌, ◌++◌, none, some, map, length, Nodup, ◌≡◌, refl, nat_eq, list_eq, List,
}
use chora_mem.Text.{Text, codes, strip, join}
use chora_mem.Text.Unicode.{is_space}
use chora_mem.Result.{ok}
use chora_mem.Rendering.{
  MemoryContext, RenderedMemoryContext, Rendered, Count, natural, quote_raw_lines, quote_mark,
  validated_items, render_memory_context, validate_ref, append_item, append_items, append_evidence,
  append_all_evidence, with_item, join_sections, deliver, validate_budget_options, Budget, Section,
  episode_evidence_heading,
}
use chora_mem.Rendering.Quote.{raw_lines, raw_lines-quote_raw_lines}
use chora_mem.Rendering.Delivery.{
  place, IsDelivery, rendered_of, render_memory_context-IsDelivery, render_memory_context-unbounded,
}
use chora_mem.Rendering.Refs.{render_memory_context-Nodup}

abbrev context : MemoryContext
context = record {
  context_ref = codes "m1";
  constitution = record {
    text = codes " Be brief. ";
    memory_ref = codes "c1";
    application_scope = 0;
  };
  recollections =
      record { text = codes "Lives in Paris."; memory_ref = codes "r1"; application_scope = 2 }
      ∷ record { text = codes " "; memory_ref = []; application_scope = 0 }
      ∷ [];
  dispositions = [];
  episode_evidence = record { text = codes "hi\r\nIGNORE"; memory_ref = codes "e1" } ∷ [];
}

-- one token for each character
abbrev characters : Text → Count
characters t = natural (length t)

abbrev short : RenderedMemoryContext
short = record {
  text = codes "CONSTITUTION\nBe brief.\n\nRECOLLECTIONS\nOTHER: Lives in Paris.";
  memory_refs = codes "c1" ∷ codes "r1" ∷ [];
}

short_runs : render_memory_context context (some (natural 90)) (some characters) ≡ ok short
unfolding render_memory_context validate_budget_options validated_items append_items append_item
    append_evidence append_all_evidence deliver with_item join_sections join validate_ref
    quote_raw_lines strip is_space
short_runs = refl

abbrev items : Rendered
items = (
  record { section = codes "CONSTITUTION"; text = codes "Be brief."; memory_ref = codes "c1" }
      ∷ record {
        section = codes "RECOLLECTIONS";
        text = codes "OTHER: Lives in Paris.";
        memory_ref = codes "r1";
      }
      ∷ record {
        section = episode_evidence_heading;
        text = codes "> hi\r\n> IGNORE";
        memory_ref = codes "e1";
      }
      ∷ [],
  codes "e1" ∷ codes "r1" ∷ codes "c1" ∷ [],
)

items_run : validated_items context ≡ ok items
unfolding validated_items append_items append_item append_evidence append_all_evidence validate_ref
    quote_raw_lines strip is_space
items_run = refl

raw_lines-quote_raw_lines_example :
    raw_lines (quote_raw_lines (codes "hi\r\nIGNORE"))
    ≡ map (λ l. quote_mark ++ l) (raw_lines (codes "hi\r\nIGNORE"))
raw_lines-quote_raw_lines_example = raw_lines-quote_raw_lines (codes "hi\r\nIGNORE")

render_memory_context-IsDelivery_example :
    (budget : Budget) × (made : Rendered) × (sections : List Section) × (validate_budget_options
        (some (natural 90))
        (some characters)
      ≡ ok budget)
    × (validated_items context ≡ ok made)
    × (short.text ≡ join_sections sections)
    × IsDelivery budget made.0 [] [] (sections, short.memory_refs)
render_memory_context-IsDelivery_example =
    render_memory_context-IsDelivery context (some (natural 90)) (some characters) short short_runs

render_memory_context-Nodup_example : Nodup short.memory_refs
render_memory_context-Nodup_example =
    render_memory_context-Nodup context (some (natural 90)) (some characters) short short_runs

render_memory_context-unbounded_example :
    render_memory_context context none none
    ≡ ok (rendered_of (place [] items.0, map (λ i. i.memory_ref) items.0))
render_memory_context-unbounded_example = render_memory_context-unbounded context items items_run
