-- ===== src/Service/Exec.antt =====
-- Code that calls the text model and may raise. The model (`TextModel.complete`, injected into the
-- service) is a parameter: what it answers may depend on all the prompts sent before, so the state
-- is the list of those prompts, in order.
use chora_mem.Prelude.{List, [], ◌∷◌, ◌++◌}
use chora_mem.Text.{Text, codes}
use chora_mem.Result.{Result, ok, err, Error, type_error, model_error}

-- how an awaited `complete` ends: with a `str`, with another value, or by an exception
pub data Completion : Type 0 where
  returned : Text → Completion
  not_text : Completion
  raised : Text → Completion

-- a text model: earlier prompts, and the prompt to complete
abbrev pub TextModel : Type 0
TextModel = List Text → Text → Completion

abbrev pub Exec : Type 0 → Type 0
Exec A = List Text → Result A × List Text

module _ {A : Type 0} where
  abbrev pub pure : A → Exec A
  pure a sent = (ok a, sent)

  abbrev pub lift : Result A → Exec A
  lift r sent = (r, sent)

module _ {A B : Type 0} where
  abbrev pub continue : Result A → (A → Exec B) → Exec B
  continue (ok a) f sent = f a sent
  continue (err e) f sent = (err e, sent)

  infixl 5 ◌>>=◌
  abbrev pub ◌>>=◌ : Exec A → (A → Exec B) → Exec B
  ◌>>=◌ m f sent = continue (m sent).0 f (m sent).1

abbrev pub not_text_error : Error
not_text_error = type_error (codes "TextModel.complete() must return str")

-- the check `isinstance(text, str)` behind each call
abbrev pub text_of : Completion → Result Text
text_of (returned text) = ok text
text_of not_text = err not_text_error
text_of (raised what) = err (model_error what)

-- `await self._model.complete(prompt)` and the check of its type
unfoldable pub complete : TextModel → Text → Exec Text
complete model prompt sent = (text_of (model sent prompt), sent ++ prompt ∷ [])
