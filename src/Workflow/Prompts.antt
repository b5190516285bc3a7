-- ===== src/Workflow/Prompts.antt =====
-- bridge/multi_model.py: the texts that the workflows send to the pod and put around its answers.
use gpu_relay.Common.{String, [], ◌∷◌, join, strip, take_chars}

abbrev pub review_prompt : String → String → String
review_prompt focus user_content = join "" (
    "Perform a thorough code review. Focus on: " ∷ focus
    ∷ "\n\nFor each issue found, structure as:\n## [Category]: [Issue Title]\n**Severity**: Critical | High | Medium | Low\n**Location**: [file/function if identifiable]\n**Problem**: [clear description]\n**Recommendation**: [concrete fix with code where applicable]\n\nOriginal request:\n"
    ∷ user_content ∷ [])

-- The summary in front of a review.
abbrev pub summary_prefix : String → String
summary_prefix summary = join "" ("## Executive Summary\n\n" ∷ strip summary ∷ "\n\n---\n\n" ∷ [])

abbrev pub review_text : String → String → String
review_text prefix review = join "" (prefix ∷ "## Detailed Findings\n\n" ∷ review ∷ [])

abbrev pub plan_prompt : (kind concerns approach user_content : String) → String
plan_prompt kind concerns approach user_content = join "" (
    "Create a detailed refactoring plan.\n\nType: " ∷ kind ∷ "\nKey concerns: " ∷ concerns
    ∷ "\nApproach: " ∷ approach
    ∷ "\n\nStructure:\n## Refactoring Goals\n## Step-by-Step Changes\n## Before/After Examples (for the most impactful changes)\n## Testing Strategy\n\nOriginal request:\n"
    ∷ user_content ∷ [])

abbrev pub validation_note : String → String
validation_note validation = join "" ("\n\n> **Validation**: " ∷ strip validation ∷ "\n" ∷ [])

abbrev pub impl_prompt : String → String
impl_prompt plan = join "" (
    "Now implement the refactoring.\n\nPlan:\n" ∷ plan
    ∷ "\n\nProvide the complete refactored code. For large files, show all changed sections with enough context lines.\nAdd brief comments explaining each non-obvious change."
    ∷ [])

abbrev pub refactoring_text : (plan note implementation : String) → String
refactoring_text plan note implementation = join "" (
    "## Refactoring Plan\n\n" ∷ plan ∷ note ∷ "\n\n---\n\n## Implementation\n\n" ∷ implementation
    ∷ [])

abbrev pub design_prompt : (kind required constraints scale user_content : String) → String
design_prompt kind required constraints scale user_content = join "" (
    "Design a comprehensive software architecture.\n\nSystem type: " ∷ kind ∷ "\nKey requirements: "
    ∷ required ∷ "\nConstraints: " ∷ constraints ∷ "\nScale: " ∷ scale
    ∷ "\n\nProvide:\n## Architecture Overview\n## Component Diagram (text/ASCII art)\n## Data Flow\n## Technology Stack (with rationale)\n## API Design (key endpoints)\n## Database Schema (key tables/entities)\n## Security Considerations\n## Deployment Strategy\n\nOriginal request:\n"
    ∷ user_content ∷ [])

abbrev pub checklist_section : String → String
checklist_section checklist =
    join "" ("\n\n---\n\n## Implementation Checklist\n\n" ∷ strip checklist ∷ [])

abbrev pub detail_prompt : String → String
detail_prompt architecture = join "" (
    "Based on the architecture above, provide concrete implementation details for the 2-3 most critical components:\n- Code structure / file layout\n- Key interfaces, data models, and contracts\n- Critical implementation considerations with code examples\n\nArchitecture summary (first 2000 chars):\n"
    ∷ take_chars 2000 architecture
    ∷ "\n\nBe specific and practical."
    ∷ [])

abbrev pub design_text : (architecture checklist details : String) → String
design_text architecture checklist details =
    join "" (architecture ∷ checklist ∷ "\n\n---\n\n## Implementation Details\n\n" ∷ details ∷ [])
