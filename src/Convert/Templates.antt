-- ===== src/Convert/Templates.antt =====
-- pkg/convert/template.go: a template as a custom resource and as a message.
use tink.Prelude.{◌≡◌, String, Option, none, some, [], ◌∷◌, arith}
use tink.Prelude.Int.{ℤ, pos}
use tink.Proto.Template.{WorkflowTemplate}
use tink.V1alpha1.Methods.{annotation}
use tink.V1alpha1.Resources.{Template, template_id, template_annotation}

abbrev text_of : Option String → String
text_of none = ""
text_of (some text) = text

-- a missing timestamp is the Unix epoch
abbrev as_time : Option ℤ → ℤ
as_time none = pos 0
as_time (some t) = t

unfoldable pub template_crd_to_proto : Option Template → Option WorkflowTemplate
unfolding template_id
template_crd_to_proto none = none
template_crd_to_proto (some t) = some (record {
  id = template_id t;
  name = t.name;
  created_at = some t.creation_timestamp;
  updated_at = none;
  deleted_at = t.deletion_timestamp;
  content = text_of t.content;
})

unfoldable pub template_proto_to_crd : Option WorkflowTemplate → Option Template
template_proto_to_crd none = none
template_proto_to_crd (some m) = some (record {
  name = m.name;
  annotations = (template_annotation, m.id) ∷ [];
  creation_timestamp = as_time m.created_at;
  deletion_timestamp = m.deleted_at;
  content = some m.content;
})

-- A message that is made a resource and back keeps all but the time of its update, and has a creation
-- time.
template_proto_to_crd-template_crd_to_proto :
    (m : WorkflowTemplate)
    → template_crd_to_proto (template_proto_to_crd (some m))
      ≡ some (record m { created_at = some (as_time m.created_at); updated_at = none })
unfolding template_crd_to_proto template_proto_to_crd template_id annotation
template_proto_to_crd-template_crd_to_proto m = ground arith
